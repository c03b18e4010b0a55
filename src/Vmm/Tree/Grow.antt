-- ===== src/Vmm/Tree/Grow.antt =====
-- The first two parts of `vmm_map_page_in` keep the tree.
use neodymium.Base.{
  ℕ, ◌%◌, ◌<◌, ◌≡◌, ◌≢◌, ◌⊎◌, refl, ◌∙◌, bit_and, bit_or, Bool, true, false, not, ◌&&◌, arith, ◌==◌,
  Bool-cases, inl, inr, update2,
}
use neodymium.Pmm
use neodymium.Pmm.{Pmm}
use neodymium.Vmm.{
  Vmm, vmm_present, vmm_writable, vmm_user, has, frame, mark_user, copy_page, zero_page, own_table,
  make_table, and_then,
}
use neodymium.Vmm.Map.{
  Points, Points-flags, Points-bit_or, present-odd, mark_user-Points, update2_same,
}
use neodymium.Vmm.Space.{copy_page_lem, user_flag, low_bits}
use neodymium.Vmm.Tree.{entry, IsTree, Fresh, alloc_page-Fresh}
use neodymium.Vmm.Tree.Rows.{zero_page_other, mark_user_other, copy_page_row}
use neodymium.Vmm.Tree.Link.{Grows, Linked, Linked-Grows}

-- The table is filled first, and then the entry is written.
module _ {v : Vmm} {p : Pmm} {i new : ℕ} (m1 m : ℕ → ℕ → ℕ) (f : Fresh v.pmm p new)
    (t : IsTree v) where
  written-Linked :
      ((q x : ℕ) → new ≢ q → m1 q x ≡ v.mem q x)
      → ((q x : ℕ) → ((q == v.current_page_directory) && (x == i)) ≡ false → m q x ≡ m1 q x)
      → Points (m v.current_page_directory i) new
      → (has (entry v i) vmm_present ≡ true
          → (x : ℕ) → x < 1024
          → m1 new x ≡ v.mem (frame (entry v i)) x)
      → Linked v (record v { pmm = p; mem = m }) i new
  written-Linked filled wrote points copied =
      let ne = f.other v.current_page_directory t.home in
      record {
        fresh = f;
        same_home = refl;
        others = λ q x apart home. wrote q x (ground arith) ∙ filled q x apart;
        row = λ j other.
            wrote v.current_page_directory j (ground arith) ∙ filled v.current_page_directory j ne;
        points = points;
        copied = λ on x h. wrote new x (ground arith) ∙ copied on x h;
      }

-- What a part of the call leaves: it got through, and the tree grew at the entry `i` at most.
record Through (v : Vmm) (i : ℕ) (r : Bool × Vmm) : Type 0 where
  done : r.0 ≡ true
  outcome : (r.1 ≡ v) ⊎ Grows v r.1 i

pub record Prepared (v : Vmm) (i : ℕ) (r : Bool × Vmm) : Type 0 where
  pub done : r.0 ≡ true
  pub grows : Grows v r.1 i

make_table-Prepared :
    {v : Vmm} (i flags : ℕ)
    → IsTree v
    → 0 < v.pmm.free_count
    → has (entry v i) vmm_present ≡ false
    → Prepared v i (make_table v v.current_page_directory i flags)
unfolding make_table
make_table-Prepared {v} i flags t pos off =
    let f = alloc_page-Fresh t.allocator pos in
    let new = (Pmm.alloc_page v.pmm).0 in
    let got : (new == 0) ≡ false = ground (arith, f.not_null) in
    let base = Points-flags new vmm_present f.in_use.aligned f.small (omega arith) (omega arith) in
    let full =
      Points-bit_or (bit_and flags vmm_user) (user_flag flags)
        (Points-bit_or vmm_writable (omega arith) base) in
    let e = bit_or (bit_or (bit_or new vmm_present) vmm_writable) (bit_and flags vmm_user) in
    let m1 = zero_page v.mem new in
    rw (off, got)
      record {
        done = refl;
        grows =
            (Linked-Grows t (
              written-Linked m1 (update2 m1 v.current_page_directory i e) f t
                (λ q x ne. zero_page_other v.mem new q x ne) (λ q x ne. rw ne refl)
                (rw (update2_same m1 v.current_page_directory i e) full)
                (λ on. absurd (ground arith))));
      }

own_table-Through :
    {v : Vmm} (i flags : ℕ)
    → IsTree v
    → 0 < v.pmm.free_count
    → Through v i (own_table v v.current_page_directory i flags)
unfolding own_table
own_table-Through {v} i flags t pos =
    let home = v.current_page_directory in
    let e0 = v.mem home i in
    elim (Bool-cases (
      not (home == v.kernel_page_directory)
      && (has e0 vmm_present && e0 == v.mem v.kernel_page_directory i))) [
        | inr alone ↦ rw alone record { done = refl; outcome = inl refl }
        | inl shared ↦
            let f = alloc_page-Fresh t.allocator pos in
            let new = (Pmm.alloc_page v.pmm).0 in
            let got : (new == 0) ≡ false = ground (arith, f.not_null) in
            let on : has e0 vmm_present ≡ true = ground arith in
            let ne = f.other home t.home in
            let m1 = copy_page v.mem new (frame e0) in
            let flag_bits = bit_and (m1 home i) 0xFFF in
            let kept : m1 home i ≡ e0 = copy_page_lem v.mem new (frame e0) home i ne in
            let odd : e0 % 2 ≡ 1 = ground (arith, present-odd e0) in
            let points : Points (bit_or new flag_bits) new =
              Points-flags new flag_bits f.in_use.aligned f.small
                (omega (arith, low_bits (m1 home i)))
                (omega (arith, low_bits (m1 home i), kept, odd)) in
            let m2 = update2 m1 home i (bit_or new flag_bits) in
            rw (shared, got)
              record {
                done = refl;
                outcome = inr (
                    Linked-Grows t (
                      written-Linked m1 (mark_user m2 home i flags) f t
                        (λ q x other. copy_page_lem v.mem new (frame e0) q x other)
                        (λ q x other. mark_user_other m2 home i flags q x other ∙ rw other refl)
                        (mark_user-Points m2 home i flags new
                          (rw (update2_same m1 home i (bit_or new flag_bits)) points))
                        (λ present x h.
                          copy_page_row v.mem new (frame e0) x (f.other (frame e0) (t.table i on))
                            h)));
              }
      ]

Grows-refl : {v : Vmm} {i : ℕ} → IsTree v → has (entry v i) vmm_present ≡ true → Grows v v i
Grows-refl t on = record {
  tree = t;
  same_home = refl;
  row = λ j ne. refl;
  pages = λ q x u ne. refl;
  kept = λ q u. u;
  leaf = λ q f. f;
  table = λ p x h. refl;
  ready = on;
  room = omega arith;
}

-- The two parts together, behind which the entry `i` has a table.
then_make :
    {v : Vmm} (i flags : ℕ) (r : Bool × Vmm)
    → IsTree v
    → 0 < v.pmm.free_count
    → Through v i r
    → Prepared v i (and_then r (λ w. make_table w v.current_page_directory i flags))
unfolding and_then make_table
then_make i flags (false, w) t pos h = absurd (ground (arith, h.done))
then_make {v} i flags (true, w) t pos h = elim h.outcome [
  | inl same ↦ rw same (elim (Bool-cases (has (entry v i) vmm_present)) [
    | inl on ↦ rw on record { done = refl; grows = Grows-refl t on }
    | inr off ↦ make_table-Prepared i flags t pos off
  ])
  | inr g ↦
      let on : has (w.mem v.current_page_directory i) vmm_present ≡ true =
        rw (← g.same_home) g.ready in
      rw on record { done = refl; grows = g }
]

pub own_make-Prepared :
    {v : Vmm} (i flags : ℕ)
    → IsTree v
    → 0 < v.pmm.free_count
    → Prepared v i (
        and_then
          (own_table v v.current_page_directory i flags)
          (λ w. make_table w v.current_page_directory i flags))
own_make-Prepared i flags t pos = then_make i flags _ t pos (own_table-Through i flags t pos)
