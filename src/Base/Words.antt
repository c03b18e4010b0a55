-- ===== src/Base/Words.antt =====
-- The machine words of the kernel: `unsigned int` has 32 bits and wraps.
use Prim.Native.Nat.{ℕ, ◌+◌, ◌-◌, ◌*◌, ◌/◌, ◌%◌, ◌^◌}

abbrev pub u32_mod : ℕ
u32_mod = 2 ^ 32

abbrev pub u32 : ℕ → ℕ
u32 n = n % 2 ^ 32

abbrev pub u16 : ℕ → ℕ
u16 n = n % 2 ^ 16

abbrev pub u8 : ℕ → ℕ
u8 n = n % 2 ^ 8

-- `a + b` and `a - b` of two words. `-` on ℕ stops at 0, so the modulus is added first.
abbrev pub add32 : ℕ → ℕ → ℕ
add32 a b = (a + b) % 2 ^ 32

abbrev pub sub32 : ℕ → ℕ → ℕ
sub32 a b = (a + 2 ^ 32 - b) % 2 ^ 32

-- `~a` of a word.
abbrev pub not32 : ℕ → ℕ
not32 a = 2 ^ 32 - 1 - a

-- `a >> k`, and `a << k` before the cut to a width.
infixl 75 ◌<<<◌ ◌>>>◌
abbrev pub ◌>>>◌ : ℕ → ℕ → ℕ
a >>> k = a / 2 ^ k

abbrev pub ◌<<<◌ : ℕ → ℕ → ℕ
a <<< k = a * 2 ^ k

-- A read of an `unsigned int` from an array of bytes, lowest first.
abbrev pub load32 : (ℕ → ℕ) → ℕ → ℕ
load32 m a = m a + m (a + 1) * 256 + m (a + 2) * 65536 + m (a + 3) * 16777216
