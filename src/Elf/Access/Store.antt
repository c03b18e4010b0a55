-- ===== src/Elf/Access/Store.antt =====
-- Accesses to the pages that a space owns: they do not fault, and a write changes one page's words
-- and nothing of the tables.
use neodymium.Base.{ℕ, ◌*◌, ◌<◌, ◌/◌, ◌%◌, ◌≡◌, ◌≢◌, ap, sym, refl, ◌∙◌, some, arith, bit_and}
use neodymium.Vmm.{Vmm, vmm_present, pd_idx, pt_idx, has, frame, zero_page}
use neodymium.Vmm.Map.{Points-present, Points-frame}
use neodymium.Vmm.Tree.{entry, IsTree, IsLeaf, Owns, Maps, IsIdentity}
use neodymium.Vmm.Tree.Entry.{
  SameTables, SameTables-IsTree, SameTables-IsLeaf, SameTables-Owns, SameTables-Maps,
}
use neodymium.Elf.Access.{M, ◌>>=◌, page_of, peek, poke, load8, store8, clear_page}

pub page_of-Owns : {v : Vmm} {a q : ℕ} → Owns v a q → page_of v a ≡ some q
unfolding page_of
page_of-Owns {v} {a} {q} o = rw (o.present, Points-present o.page) (ap some (Points-frame o.page))

-- Where physical memory is mapped at its own addresses, the processor finds each of its pages there.
pub page_of-IsIdentity :
    (v : Vmm) (n p : ℕ) → IsIdentity n v → p < n → page_of v (p * 4096) ≡ some (p * 4096)
unfolding page_of IsIdentity
page_of-IsIdentity v n p h lt =
    let m = h p lt in rw (m.present, Points-present m.page) (ap some (Points-frame m.page))

pub load8-Owns : {v : Vmm} {a q : ℕ} → Owns v a q → load8 a v ≡ some (peek v.mem q (a % 4096), v)
unfolding load8
load8-Owns o = rw (page_of-Owns o, load8) refl

pub store8-Owns :
    {v : Vmm} {a q : ℕ} (b : ℕ)
    → Owns v a q
    → store8 a b v ≡ some (tt, record v { mem = poke v.mem q (a % 4096) b })
unfolding store8
store8-Owns b o = rw (page_of-Owns o, store8) refl

pub clear_page-Owns :
    {v : Vmm} {a q : ℕ}
    → Owns v a q
    → clear_page a v ≡ some (tt, record v { mem = zero_page v.mem q })
unfolding clear_page
clear_page-Owns o = rw (page_of-Owns o, clear_page) refl

-- `u` has the tables and the pages of `v`.
pub record Keeps (v u : Vmm) : Type 0 where
  pub tree : IsTree u
  pub same_pages : u.pmm ≡ v.pmm
  pub owns : (b p : ℕ) → Owns v b p → Owns u b p
  pub maps : (b p : ℕ) → Maps v b p → Maps u b p
  pub leaf : (p : ℕ) → IsLeaf v p → IsLeaf u p

-- A write to a leaf.
pub leaf-Keeps :
    {v : Vmm} {q : ℕ} (m : ℕ → ℕ → ℕ)
    → IsTree v
    → IsLeaf v q
    → ((p x : ℕ) → q ≢ p → m p x ≡ v.mem p x)
    → Keeps v (record v { mem = m })
leaf-Keeps {v} {q} m t f others =
    let home = v.current_page_directory in
    let row : (i : ℕ) → m home i ≡ v.mem home i = λ i. others home i f.not_home in
    let s : SameTables v (record v { mem = m }) = record {
      same_pages = refl;
      same_home = refl;
      word = λ i. rw (row i) (t.word i);
      present = λ i. ap (λ e. has e vmm_present) (row i);
      same_frame = λ i. ap frame (row i);
    } in
    record {
      tree = SameTables-IsTree s t;
      same_pages = refl;
      owns = λ b p o. SameTables-Owns s o (
          others (frame (entry v (pd_idx b))) (pt_idx b)
            (λ e. f.not_table (pd_idx b) o.present (sym e)));
      maps = λ b p o. SameTables-Maps s o (
          others (frame (entry v (pd_idx b))) (pt_idx b)
            (λ e. f.not_table (pd_idx b) o.present (sym e)));
      leaf = λ p. SameTables-IsLeaf s;
    }

-- A step that does not fault goes on with its result.
pub >>=-some :
    {A B : Type 0} (m : M A) (f : A → M B) (v : Vmm) {a : A} {w : Vmm}
    → m v ≡ some (a, w)
    → (m >>= f) v ≡ f a w
>>=-some m f v e = rw (e, ◌>>=◌) refl

-- An access depends on the page that the address lies in.
pub Owns-page : {v : Vmm} (a b : ℕ) {q : ℕ} → a / 4096 ≡ b / 4096 → Owns v a q → Owns v b q
Owns-page {v} a b {q} e o =
    let hi : pd_idx a ≡ pd_idx b = omega arith in
    let lo : pt_idx a ≡ pt_idx b = ap (λ n. bit_and n 0x3FF) e in
    record { present = rw (← hi) o.present; page = rw (← hi, ← lo) o.page; leaf = o.leaf }

pub Keeps-trans : {u v w : Vmm} → Keeps u v → Keeps v w → Keeps u w
Keeps-trans a b = record {
  tree = b.tree;
  same_pages = b.same_pages ∙ a.same_pages;
  owns = λ p q o. b.owns p q (a.owns p q o);
  maps = λ p q o. b.maps p q (a.maps p q o);
  leaf = λ p l. b.leaf p (a.leaf p l);
}
