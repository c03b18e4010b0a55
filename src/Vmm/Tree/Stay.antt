-- ===== src/Vmm/Tree/Stay.antt =====
-- Which pages of a space stay where they are when a table or an entry is written.
use neodymium.Base.{
  ℕ, ◌/◌, ◌^◌, ◌<◌, ◌≡◌, ◌≢◌, sym, true, false, ◌&&◌, arith, ◌==◌, Bool-cases, inl, inr,
}
use neodymium.Base.Bits.{bit_and_low}
use neodymium.Vmm.{Vmm, vmm_present, pd_idx, pt_idx, has, frame}
use neodymium.Vmm.Tree.{entry, IsTree, IsLeaf, Owns, Maps, Owns-Maps}
use neodymium.Vmm.Tree.Link.{Grows}
use neodymium.Vmm.Tree.Entry.{Written, SameTables-IsLeaf, SameTables-Owns, SameTables-Maps}

pub pt_idx-lt : (a : ℕ) → pt_idx a < 1024
pt_idx-lt a = omega (arith, bit_and_low 10 (a / 2 ^ 12))

pub Grows-Maps : {v w : Vmm} {i b q : ℕ} → IsTree v → Grows v w i → Maps v b q → Maps w b q
Grows-Maps {v} {w} {i} {b} {q} t g o = elim (Bool-cases (i == pd_idx b)) [
  | inl same ↦
      let e : i ≡ pd_idx b = ground (arith, same) in
      let on : has (entry v i) vmm_present ≡ true = rw e o.present in
      let word : w.mem (frame (entry w i)) (pt_idx b) ≡ v.mem (frame (entry v i)) (pt_idx b) =
        g.table on (pt_idx b) (pt_idx-lt b) in
      record { present = rw (← e) g.ready; page = rw (← e) (rw word (rw e o.page)) }
  | inr other ↦
      let row = g.row (pd_idx b) (ground (arith, other)) in
      let table = t.table (pd_idx b) o.present in
      let apart = t.apart (pd_idx b) o.present in
      record {
        present = rw row o.present;
        page = rw (row, g.pages (frame (entry v (pd_idx b))) (pt_idx b) table apart) o.page;
      }
]

pub Grows-Owns : {v w : Vmm} {i b q : ℕ} → IsTree v → Grows v w i → Owns v b q → Owns w b q
Grows-Owns {q = q} t g o =
    let m = Grows-Maps t g (Owns-Maps o) in
    record { present = m.present; page = m.page; leaf = g.leaf q o.leaf }

-- The two indices give the page.
indices-page : (a b : ℕ) → pd_idx a ≡ pd_idx b → pt_idx a ≡ pt_idx b → a / 4096 ≡ b / 4096
indices-page a b hi lo = omega (arith, bit_and_low 10 (a / 2 ^ 12), bit_and_low 10 (b / 2 ^ 12))

pub other_word :
    {w : Vmm} (a b : ℕ)
    → IsTree w
    → has (entry w (pd_idx a)) vmm_present ≡ true
    → has (entry w (pd_idx b)) vmm_present ≡ true
    → a / 4096 ≢ b / 4096
    → ((frame (entry w (pd_idx b)) == frame (entry w (pd_idx a))) && (pt_idx b == pt_idx a)) ≡ false
other_word {w} a b t on_a on_b ne = elim (Bool-cases (pd_idx a == pd_idx b)) [
  | inl same ↦
      let e : pd_idx a ≡ pd_idx b = ground (arith, same) in
      let differ : pt_idx a ≢ pt_idx b = λ lo. ne (indices-page a b e lo) in ground (arith, differ)
  | inr other ↦
      let differ = t.distinct (pd_idx a) (pd_idx b) (ground (arith, other)) on_a on_b in
      ground (arith, differ)
]

-- Behind the last part: the new page is there, and so are the others.
pub Written-Owns :
    {w u : Vmm} {a phys : ℕ}
    → IsTree w
    → IsLeaf w phys
    → has (entry w (pd_idx a)) vmm_present ≡ true
    → Written w u a phys
    → Owns u a phys
Written-Owns {w} {u} {a} t leaf on h = record {
  present = rw (h.tables.present (pd_idx a)) on;
  page = rw (h.tables.same_frame (pd_idx a)) h.page;
  leaf = SameTables-IsLeaf h.tables leaf;
}

pub Written-kept :
    {w u : Vmm} {a phys : ℕ} (b q : ℕ)
    → IsTree w
    → has (entry w (pd_idx a)) vmm_present ≡ true
    → Written w u a phys
    → a / 4096 ≢ b / 4096
    → Owns w b q
    → Owns u b q
Written-kept {w} {u} {a} b q t on h ne o = SameTables-Owns h.tables o (
    h.others (frame (entry w (pd_idx b))) (pt_idx b) (λ e. t.apart (pd_idx b) o.present (sym e))
      (other_word a b t on o.present ne))

pub Written-Maps :
    {w u : Vmm} {a phys : ℕ} (b q : ℕ)
    → IsTree w
    → has (entry w (pd_idx a)) vmm_present ≡ true
    → Written w u a phys
    → a / 4096 ≢ b / 4096
    → Maps w b q
    → Maps u b q
Written-Maps {w} {u} {a} b q t on h ne o = SameTables-Maps h.tables o (
    h.others (frame (entry w (pd_idx b))) (pt_idx b) (λ e. t.apart (pd_idx b) o.present (sym e))
      (other_word a b t on o.present ne))

pub Written-contents :
    {w u : Vmm} {a phys : ℕ} (q x : ℕ)
    → has (entry w (pd_idx a)) vmm_present ≡ true
    → Written w u a phys
    → IsLeaf w q
    → u.mem q x ≡ w.mem q x
Written-contents {w} {u} {a} q x on h f =
    let ne = f.not_table (pd_idx a) on in h.others q x (λ e. f.not_home (sym e)) (ground arith)
