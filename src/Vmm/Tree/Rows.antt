-- ===== src/Vmm/Tree/Rows.antt =====
-- What the loops over a page and the marking of an entry write.
use neodymium.Base.{
  ℕ, ◌<◌, ◌≡◌, ◌≢◌, refl, ◌∙◌, false, ◌&&◌, arith, ◌==◌, Bool-cases, inl, inr, update2,
  for_below-keeps, for_below, copy_row_lem, fill_row_lem,
}
use neodymium.Vmm.{vmm_user, has, mark_user, copy_page, zero_page}
use neodymium.Vmm.Map.{update2_other}

pub zero_page_other : (m : ℕ → ℕ → ℕ) (page q x : ℕ) → page ≢ q → zero_page m page q x ≡ m q x
unfolding zero_page
zero_page_other m page q x ne =
    for_below-keeps (λ a. a q x ≡ m q x) 1024 (λ j a. update2 a page j 0) m
      (λ j a e. update2_other a page j 0 q x ne ∙ e) refl

copied_row :
    (n : ℕ) (m : ℕ → ℕ → ℕ) (to from x : ℕ)
    → to ≢ from
    → x < n
    → for_below n (λ j a. update2 a to j (a from j)) m to x ≡ m from x
copied_row n m to from x ne h = ground (arith, copy_row_lem m n to from to x (ground arith))

pub copy_page_row :
    (m : ℕ → ℕ → ℕ) (to from x : ℕ) → to ≢ from → x < 1024 → copy_page m to from to x ≡ m from x
unfolding copy_page
copy_page_row m to from x ne h = copied_row 1024 m to from x ne h

pub mark_user_other :
    (m : ℕ → ℕ → ℕ) (pd i flags q x : ℕ)
    → ((q == pd) && (x == i)) ≡ false
    → mark_user m pd i flags q x ≡ m q x
unfolding mark_user
mark_user_other m pd i flags q x ne = elim (Bool-cases (has flags vmm_user)) [
  | inl user ↦ rw user (rw ne refl)
  | inr other ↦ rw other refl
]

zero_row :
    (n : ℕ) (m : ℕ → ℕ → ℕ) (page x : ℕ)
    → x < n
    → for_below n (λ j a. update2 a page j 0) m page x ≡ 0
zero_row n m page x h = ground (arith, fill_row_lem m n page 0 page x)

pub zero_page_row : (m : ℕ → ℕ → ℕ) (page x : ℕ) → x < 1024 → zero_page m page page x ≡ 0
unfolding zero_page
zero_page_row m page x h = zero_row 1024 m page x h
