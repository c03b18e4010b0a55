-- ===== src/Pmm/Count.antt =====
-- The free pages below a bound, counted one by one, and what a write of the bitmap does to it.
use neodymium.Base.{ℕ, zero, suc, ◌+◌, ◌≤◌, ◌<◌, ◌≡◌, refl, true, false, arith, if◌then◌else◌}
use neodymium.Pmm.{Bitmap, is_used, set_bit, clear_bit}
use neodymium.Pmm.View.{is_used-set_bit, is_used-clear_bit}

unfoldable pub free_below : Bitmap → ℕ → ℕ
free_below b zero = 0
free_below b (suc n) = free_below b n + (if is_used b n then 0 else 1)

pub free_below-le : (b : Bitmap) (n : ℕ) → free_below b n ≤ n
unfolding free_below
free_below-le b zero = omega arith
free_below-le b (suc n) = ground (arith, free_below-le b n)

pub free_below-eq-zero :
    (b : Bitmap) (n : ℕ) → ((j : ℕ) → j < n → is_used b j ≡ true) → free_below b n ≡ 0
unfolding free_below
free_below-eq-zero b zero h = refl
free_below-eq-zero b (suc n) h =
    ground (arith, h n, free_below-eq-zero b n (λ j lt. h j (omega arith)))

-- A page at or above the bound does not count.
pub free_below-set_out :
    (b : Bitmap) (i n : ℕ) → n ≤ i → free_below (set_bit b i) n ≡ free_below b n
unfolding free_below
free_below-set_out b i zero h = refl
free_below-set_out b i (suc n) h = ground (arith, free_below-set_out b i n, is_used-set_bit b i n)

pub free_below-set_in :
    (b : Bitmap) (i n : ℕ)
    → i < n
    → is_used b i ≡ false
    → free_below (set_bit b i) n + 1 ≡ free_below b n
unfolding free_below
free_below-set_in b i zero h f = absurd (omega arith)
free_below-set_in b i (suc n) h f =
    ground (arith, free_below-set_in b i n, free_below-set_out b i n, is_used-set_bit b i n)

pub free_below-clear_out :
    (b : Bitmap) (i n : ℕ) → n ≤ i → free_below (clear_bit b i) n ≡ free_below b n
unfolding free_below
free_below-clear_out b i zero h = refl
free_below-clear_out b i (suc n) h =
    ground (arith, free_below-clear_out b i n, is_used-clear_bit b i n)

pub free_below-clear_in :
    (b : Bitmap) (i n : ℕ)
    → i < n
    → is_used b i ≡ true
    → free_below (clear_bit b i) n ≡ free_below b n + 1
unfolding free_below
free_below-clear_in b i zero h f = absurd (omega arith)
free_below-clear_in b i (suc n) h f =
    ground (arith, free_below-clear_in b i n, free_below-clear_out b i n, is_used-clear_bit b i n)

pub free_below_ext :
    (b c : Bitmap) (n : ℕ) → ((j : ℕ) → is_used b j ≡ is_used c j) → free_below b n ≡ free_below c n
unfolding free_below
free_below_ext b c zero h = refl
free_below_ext b c (suc n) h = rw (free_below_ext b c n h, h n)
