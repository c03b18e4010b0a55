-- ===== src/Pmm/View.antt =====
-- The bitmap as a set of pages: what each write of a word does to each page's bit.
use neodymium.Base.{ℕ, ◌-◌, ◌/◌, ◌%◌, ◌^◌, ◌≡◌, true, false, not, arith, ◌==◌, if◌then◌else◌}
use neodymium.Base.Bits.{bit, bit-bit_or, bit-bit_and, bit-one_bit, bit-not_bit, bit_and-one}
use neodymium.Pmm.{Bitmap, is_used, set_bit, clear_bit}

is_used-bit : (b : Bitmap) (i : ℕ) → is_used b i ≡ not (bit (b (i / 32)) (i % 32) == 0)
unfolding is_used
is_used-bit b i = rw (bit_and-one (b (i / 32) / 2 ^ (i % 32)))

-- Setting a page's bit marks that page and no other.
pub is_used-set_bit :
    (b : Bitmap) (i j : ℕ) → is_used (set_bit b i) j ≡ (if i == j then true else is_used b j)
unfolding set_bit
is_used-set_bit b i j = ground (
  arith,
  is_used-bit (set_bit b i) j,
  is_used-bit b j,
  bit-bit_or (j % 32) (b (i / 32)) (2 ^ (i % 32)),
  bit-one_bit (i % 32) (j % 32),
)

-- Clearing a page's bit frees that page and no other.
pub is_used-clear_bit :
    (b : Bitmap) (i j : ℕ) → is_used (clear_bit b i) j ≡ (if i == j then false else is_used b j)
unfolding clear_bit
is_used-clear_bit b i j = ground (
  arith,
  is_used-bit (clear_bit b i) j,
  is_used-bit b j,
  bit-bit_and (j % 32) (b (i / 32)) (2 ^ 32 - 1 - 2 ^ (i % 32)),
  bit-not_bit (i % 32) (j % 32),
)
