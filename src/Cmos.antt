-- ===== src/Cmos.antt =====
-- The clock, src/kernel/cmos.h: a register is read through two ports, an interface here, and its byte
-- holds two decimal digits.
mod Decimal
use neodymium.Base.{ℕ, ◌+◌, ◌*◌, bit_and, ◌>>>◌}
use neodymium.Ports.{BytePorts}

-- `(b & 0xF) + ((b >> 4) * 10)`.
pub from_digits : ℕ → ℕ
from_digits b = bit_and b 0xF + (b >>> 4) * 10

module _ {D : Type 0} (ports : BytePorts D) where
  pub cmos_read : D → (reg : ℕ) → ℕ × D
  cmos_read d reg = ports.inb (ports.outb d 0x70 reg) 0x71

  pub get_at : D → (reg : ℕ) → ℕ × D
  get_at d reg = let (b, d1) = cmos_read d reg in (from_digits b, d1)

  pub get_second : D → ℕ × D
  get_second d = get_at d 0x00

  pub get_minute : D → ℕ × D
  get_minute d = get_at d 0x02

  pub get_hour : D → ℕ × D
  get_hour d = get_at d 0x04

  pub get_day : D → ℕ × D
  get_day d = get_at d 0x07

  pub get_month : D → ℕ × D
  get_month d = get_at d 0x08

  pub get_year : D → ℕ × D
  get_year d = get_at d 0x09

  pub get_century : D → ℕ × D
  get_century d = get_at d 0x32
