-- ===== src/Vmm/Tree/Entry.antt =====
-- Writes that leave the directory's tables where they are.
use neodymium.Base.{
  ℕ, ◌*◌, ◌/◌, ◌%◌, ◌^◌, ◌<◌, ◌≡◌, ◌≢◌, refl, sym, ◌∙◌, bit_and, bit_or, true, false, ◌&&◌, arith,
  ◌==◌, Bool-cases, inl, inr, update2,
}
use neodymium.Vmm.{Vmm, vmm_present, pd_idx, pt_idx, has, frame, mark_user, set_entry}
use neodymium.Vmm.Map.{
  Points, Points-present, Points-frame, mark_user-Points, present-odd, page_entry, update2_same,
  update2_other,
}
use neodymium.Base.Bits.{bit_and_page}
use neodymium.Vmm.Tree.Rows.{mark_user_other}
use neodymium.Vmm.Tree.{entry, IsTree, IsLeaf, Owns, Maps}

page_Points :
    (phys flags : ℕ)
    → phys % 4096 ≡ 0
    → phys < 2 ^ 32
    → flags < 4096
    → Points (bit_or (bit_or (bit_and phys 0xFFFFF000) flags) vmm_present) phys
page_Points phys flags aligned hp hf =
    let e : phys / 4096 * 4096 ≡ phys = omega arith in
    let h = page_entry phys flags hp hf in record { odd = h.odd; word = h.word; page = h.page ∙ e }

-- The entries of `w` and `u` lead to the same tables.
pub record SameTables (w u : Vmm) : Type 0 where
  pub same_pages : u.pmm ≡ w.pmm
  pub same_home : u.current_page_directory ≡ w.current_page_directory
  pub word : (i : ℕ) → entry u i < 2 ^ 32
  pub present : (i : ℕ) → has (entry u i) vmm_present ≡ has (entry w i) vmm_present
  pub same_frame : (i : ℕ) → frame (entry u i) ≡ frame (entry w i)

module _ {w u : Vmm} (s : SameTables w u) where
  pub SameTables-IsTree : IsTree w → IsTree u
  SameTables-IsTree t = record {
    allocator = rw s.same_pages t.allocator;
    home = rw (s.same_pages, s.same_home) t.home;
    word = s.word;
    table = λ i. rw (s.same_pages, s.present i, s.same_frame i) (t.table i);
    apart = λ i. rw (s.present i, s.same_frame i, s.same_home) (t.apart i);
    distinct =
        λ i j ne. rw (s.present i, s.same_frame i, s.present j, s.same_frame j) (t.distinct i j ne);
  }

  pub SameTables-IsLeaf : {q : ℕ} → IsLeaf w q → IsLeaf u q
  SameTables-IsLeaf f = record {
    in_use = rw s.same_pages f.in_use;
    not_home = rw s.same_home f.not_home;
    not_table = λ j. rw (s.present j, s.same_frame j) (f.not_table j);
  }

  pub SameTables-Owns :
      {b q : ℕ}
      → Owns w b q
      → u.mem (frame (entry w (pd_idx b))) (pt_idx b)
        ≡ w.mem (frame (entry w (pd_idx b))) (pt_idx b)
      → Owns u b q
  SameTables-Owns {b} o same = record {
    present = rw (s.present (pd_idx b)) o.present;
    page = rw (s.same_frame (pd_idx b), same) o.page;
    leaf = SameTables-IsLeaf o.leaf;
  }

  pub SameTables-Maps :
      {b q : ℕ}
      → Maps w b q
      → u.mem (frame (entry w (pd_idx b))) (pt_idx b)
        ≡ w.mem (frame (entry w (pd_idx b))) (pt_idx b)
      → Maps u b q
  SameTables-Maps {b} o same = record {
    present = rw (s.present (pd_idx b)) o.present;
    page = rw (s.same_frame (pd_idx b), same) o.page;
  }

-- One entry may change its flags.
one_entry-SameTables :
    {w : Vmm} (i : ℕ) (m : ℕ → ℕ → ℕ)
    → IsTree w
    → has (entry w i) vmm_present ≡ true
    → ((j : ℕ) → i ≢ j → m w.current_page_directory j ≡ entry w j)
    → Points (m w.current_page_directory i) (frame (entry w i))
    → SameTables w (record w { mem = m })
one_entry-SameTables {w} i m t on row after =
    let split : (P : ℕ → ℕ → Type 0)
        → P (m w.current_page_directory i) (entry w i)
        → ((j : ℕ) → P (entry w j) (entry w j))
        → (j : ℕ) → P (m w.current_page_directory j) (entry w j) =
      λ P here there j. elim (Bool-cases (i == j)) [
        | inl same ↦ let e : i ≡ j = ground (arith, same) in rw (← e) here
        | inr other ↦ let ne : i ≢ j = ground (arith, other) in rw (row j ne) (there j)
      ] in
    record {
      same_pages = refl;
      same_home = refl;
      word = split (λ e old. e < 2 ^ 32) after.word t.word;
      present =
          split (λ e old. has e vmm_present ≡ has old vmm_present) (Points-present after ∙ sym on)
            (λ j. refl);
      same_frame = split (λ e old. frame e ≡ frame old) (Points-frame after) (λ j. refl);
    }

-- A word whose present bit is set points to its frame.
has-Points : (e : ℕ) → e < 2 ^ 32 → has e vmm_present ≡ true → Points e (frame e)
has-Points e word on = record {
  odd = ground (arith, present-odd e);
  word = word;
  page = sym (bit_and_page e word);
}

-- What the last part of `vmm_map_page_in` writes.
pub record Written (w u : Vmm) (a phys : ℕ) : Type 0 where
  pub tables : SameTables w u
  pub page : Points (u.mem (frame (entry w (pd_idx a))) (pt_idx a)) phys
  pub others :
      (q x : ℕ)
      → w.current_page_directory ≢ q
      → ((q == frame (entry w (pd_idx a))) && (x == pt_idx a)) ≡ false
      → u.mem q x ≡ w.mem q x

pub set_entry-Written :
    {w : Vmm} (a phys flags : ℕ)
    → IsTree w
    → has (entry w (pd_idx a)) vmm_present ≡ true
    → phys % 4096 ≡ 0
    → phys < 2 ^ 32
    → flags < 4096
    → Written w (set_entry w w.current_page_directory a phys flags) a phys
unfolding set_entry
set_entry-Written {w} a phys flags t on aligned hp hf =
    let home = w.current_page_directory in
    let i = pd_idx a in
    let old = frame (entry w i) in
    let m1 = mark_user w.mem home i flags in
    let marked = mark_user-Points w.mem home i flags old (has-Points (entry w i) (t.word i) on) in
    let f : frame (m1 home i) ≡ old = Points-frame marked in
    let e = bit_or (bit_or (bit_and phys 0xFFFFF000) flags) vmm_present in
    let m2 = update2 m1 old (pt_idx a) e in
    let apart = t.apart i on in
    rw f record {
      tables =
          one_entry-SameTables i m2 t on
            (λ j ne.
              update2_other m1 old (pt_idx a) e home j apart
              ∙ mark_user_other w.mem home i flags home j (ground arith))
            (rw (update2_other m1 old (pt_idx a) e home i apart) marked);
      page = rw (update2_same m1 old (pt_idx a) e) (page_Points phys flags aligned hp hf);
      others = λ q x not_home ne. rw ne (mark_user_other w.mem home i flags q x (ground arith));
    }
