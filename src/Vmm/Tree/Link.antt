-- ===== src/Vmm/Tree/Link.antt =====
-- A directory entry that gets a table of its own: the two ways in which `vmm_map_page_in` does that
-- keep the tree.
use neodymium.Base.{ℕ, ◌+◌, ◌<◌, ◌≤◌, ◌≡◌, ◌≢◌, sym, ◌∙◌, true, arith, ◌==◌, Bool-cases, inl, inr}
use neodymium.Vmm.{Vmm, vmm_present, has, frame}
use neodymium.Vmm.Map.{Points, Points-present, Points-frame}
use neodymium.Vmm.Tree.{InUse, entry, IsTree, IsLeaf, Fresh}

-- From `v` to `w` the entry `i` may change, to a table with the same words; the other tables and
-- the pages of the space stay.
pub record Grows (v w : Vmm) (i : ℕ) : Type 0 where
  pub tree : IsTree w
  pub same_home : w.current_page_directory ≡ v.current_page_directory
  pub row : (j : ℕ) → i ≢ j → entry w j ≡ entry v j
  pub pages : (q x : ℕ) → InUse v.pmm q → q ≢ v.current_page_directory → w.mem q x ≡ v.mem q x
  pub kept : (q : ℕ) → InUse v.pmm q → InUse w.pmm q
  pub leaf : (q : ℕ) → IsLeaf v q → IsLeaf w q
  pub table :
      has (entry v i) vmm_present ≡ true
      → (x : ℕ) → x < 1024
      → w.mem (frame (entry w i)) x ≡ v.mem (frame (entry v i)) x
  pub ready : has (entry w i) vmm_present ≡ true
  pub room : v.pmm.free_count ≤ w.pmm.free_count + 1

-- `w` is `v` with the entry `i` set to the fresh page `new`.
pub record Linked (v w : Vmm) (i new : ℕ) : Type 0 where
  pub fresh : Fresh v.pmm w.pmm new
  pub same_home : w.current_page_directory ≡ v.current_page_directory
  pub others : (q x : ℕ) → new ≢ q → v.current_page_directory ≢ q → w.mem q x ≡ v.mem q x
  pub row : (j : ℕ) → i ≢ j → entry w j ≡ entry v j
  pub points : Points (entry w i) new
  pub copied :
      has (entry v i) vmm_present ≡ true
      → (x : ℕ) → x < 1024
      → w.mem new x ≡ v.mem (frame (entry v i)) x

module _ {v w : Vmm} {i new : ℕ} (t : IsTree v) (l : Linked v w i new) where
  -- An entry of `w` is the new one or one of `v`.
  Linked-frame :
      (P : ℕ → Type 0)
      → P new
      → ((j : ℕ) → i ≢ j → has (entry v j) vmm_present ≡ true → P (frame (entry v j)))
      → (j : ℕ) → has (entry w j) vmm_present ≡ true
      → P (frame (entry w j))
  Linked-frame P here there j on = elim (Bool-cases (i == j)) [
    | inl same ↦ let e : i ≡ j = ground (arith, same) in rw (← e) (rw (Points-frame l.points) here)
    | inr other ↦
        let ne : i ≢ j = ground (arith, other) in
        rw (l.row j ne) (there j ne (rw (← (l.row j ne)) on))
  ]

  -- The other entries still name pages that were in use, so none of them names `new`.
  Linked-old : (j : ℕ) → i ≢ j → has (entry w j) vmm_present ≡ true → new ≢ frame (entry w j)
  Linked-old j ne on =
      let on_v : has (entry v j) vmm_present ≡ true = rw (← (l.row j ne)) on in
      rw (l.row j ne) (l.fresh.other (frame (entry v j)) (t.table j on_v))

  Linked-new : (j : ℕ) → i ≡ j → frame (entry w j) ≡ new
  Linked-new j e = rw (← e) (Points-frame l.points)

  Linked-distinct :
      (j k : ℕ)
      → j ≢ k
      → has (entry w j) vmm_present ≡ true
      → has (entry w k) vmm_present ≡ true
      → frame (entry w j) ≢ frame (entry w k)
  Linked-distinct j k ne on_j on_k = elim (Bool-cases (i == j)) [
    | inl same ↦
        let e : i ≡ j = ground (arith, same) in
        rw (Linked-new j e) (Linked-old k (λ f. ne (sym e ∙ f)) on_k)
    | inr other_j ↦ elim (Bool-cases (i == k)) [
      | inl same ↦
          let e : i ≡ k = ground (arith, same) in
          rw (Linked-new k e) (λ f. Linked-old j (ground (arith, other_j)) on_j (sym f))
      | inr other_k ↦
          let ne_j : i ≢ j = ground (arith, other_j) in
          let ne_k : i ≢ k = ground (arith, other_k) in
          let on_vj : has (entry v j) vmm_present ≡ true = rw (← (l.row j ne_j)) on_j in
          let on_vk : has (entry v k) vmm_present ≡ true = rw (← (l.row k ne_k)) on_k in
          rw (l.row j ne_j, l.row k ne_k) (t.distinct j k ne on_vj on_vk)
    ]
  ]

  Linked-IsTree : IsTree w
  Linked-IsTree = record {
    allocator = l.fresh.valid;
    home = rw l.same_home (l.fresh.kept v.current_page_directory t.home);
    word = λ j. elim (Bool-cases (i == j)) [
      | inl same ↦ let e : i ≡ j = ground (arith, same) in rw (← e) l.points.word
      | inr other ↦ let ne : i ≢ j = ground (arith, other) in rw (l.row j ne) (t.word j)
    ];
    table = Linked-frame (InUse w.pmm) l.fresh.in_use (λ j ne on. l.fresh.kept _ (t.table j on));
    apart =
        Linked-frame (λ f. f ≢ w.current_page_directory)
          (rw l.same_home (l.fresh.other v.current_page_directory t.home))
          (λ j ne on. rw l.same_home (t.apart j on));
    distinct = Linked-distinct;
  }

  Linked-IsLeaf : (q : ℕ) → IsLeaf v q → IsLeaf w q
  Linked-IsLeaf q f = record {
    in_use = l.fresh.kept q f.in_use;
    not_home = rw l.same_home f.not_home;
    not_table = Linked-frame (λ x. x ≢ q) (l.fresh.other q f.in_use) (λ j ne on. f.not_table j on);
  }

  pub Linked-Grows : Grows v w i
  Linked-Grows = record {
    tree = Linked-IsTree;
    same_home = l.same_home;
    row = l.row;
    pages = λ q x u ne. l.others q x (l.fresh.other q u) (λ e. ne (sym e));
    kept = l.fresh.kept;
    leaf = Linked-IsLeaf;
    table = λ on x h. rw (Points-frame l.points) (l.copied on x h);
    ready = Points-present l.points;
    room = omega (arith, l.fresh.room);
  }
