-- ===== src/Cmos/Decimal.antt =====
-- The digits that the clock stores.
use neodymium.Base.{ℕ, ◌+◌, ◌*◌, ◌/◌, ◌%◌, ◌<◌, ◌≡◌, arith}
use neodymium.Base.Bits.{bit_and_low}
use neodymium.Cmos.{from_digits}

-- A number below 100 that is stored as its two digits is read back.
from_digits_lem : (n : ℕ) → n < 100 → from_digits (n / 10 * 16 + n % 10) ≡ n
unfolding from_digits
from_digits_lem n h = omega (arith, bit_and_low 4 (n / 10 * 16 + n % 10), h)
