-- ===== src/Base/Bits.antt =====
-- Bits of words: each bit of `|` and `&`, and the masks as quotients and remainders.
use Prim.Native.Nat.{ℕ, zero, suc, ◌+◌, ◌-◌, ◌*◌, ◌/◌, ◌%◌, ◌^◌, ◌≤◌, ◌<◌, min, max}
use Prim.Native.Nat.{bit_and, bit_or, digits, bitwise, bit_and-bitwise, bit_or-bitwise}
use mathlib.Core.Path.{◌≡◌, refl, sym, ap, ◌∙◌}
use mathlib.Core.Bool.{Bool, true, ◌&&◌}
use native.Mathlib.Nat.{div-add-mod, pow-suc, pow-succ', div-div-eq-div-mul, le_refl, one-le-pow}
use native.Mathlib.Omega.{arith}
use neodymium.Base.Tests.{◌==◌, ==_iff, if◌then◌else◌}

-- The native operations are defined by fuel: the digits of `a` need no more than `a` rounds.
module _ (ends : ℕ → ℕ) (digit : ℕ → ℕ → ℕ) where
  one_more_round :
      (a b rounds : ℕ)
      → a ≤ rounds
      → digits ends digit (suc rounds) a b ≡ digits ends digit rounds a b
  one_more_round zero b zero le = refl
  one_more_round (suc a) b zero le = absurd (omega arith)
  one_more_round zero b (suc rounds) le = refl
  one_more_round (suc a) b (suc rounds) le =
      rw (one_more_round (suc a / 2) (b / 2) rounds (omega arith))

  more_rounds :
      (k a b : ℕ) {rounds : ℕ}
      → rounds ≡ k + a
      → digits ends digit rounds a b ≡ digits ends digit a a b
  more_rounds zero a b e = ap (λ r. digits ends digit r a b) (omega (arith, e))
  more_rounds (suc k) a b {rounds} e =
      let step : rounds ≡ suc (k + a) = omega (arith, e) in
      ap (λ r. digits ends digit r a b) step
      ∙ (one_more_round a b (k + a) (omega arith) ∙ more_rounds k a b refl)

  first_digit :
      (b a : ℕ)
      → bitwise ends digit (suc a) b
        ≡ bitwise ends digit (suc a / 2) (b / 2) * 2 + digit (suc a % 2) (b % 2)
  first_digit b a =
      ap (λ t. t * 2 + digit (suc a % 2) (b % 2))
        (more_rounds (a - suc a / 2) (suc a / 2) (b / 2) (omega arith))

-- Both operations, from the lowest digit on.
pub bit_and_step : (x y : ℕ) → bit_and x y ≡ bit_and (x / 2) (y / 2) * 2 + min (x % 2) (y % 2)
bit_and_step zero mask = simp bit_and-bitwise (omega arith)
bit_and_step (suc rest) mask = simp bit_and-bitwise (first_digit (λ above. 0) min mask rest)

pub bit_or_step : (x y : ℕ) → bit_or x y ≡ bit_or (x / 2) (y / 2) * 2 + max (x % 2) (y % 2)
bit_or_step zero mask = simp bit_or-bitwise (omega arith)
bit_or_step (suc rest) mask = simp bit_or-bitwise (first_digit (λ above. above) max mask rest)

-- Bit `k` of a word, as the code reads it before the mask: `(a >> k) % 2`.
abbrev pub bit : ℕ → ℕ → ℕ
bit a k = a / 2 ^ k % 2

pub div-two-pow-suc : (a k : ℕ) → a / 2 ^ suc k ≡ a / 2 / 2 ^ k
div-two-pow-suc a k = rw (pow-succ' 2 k) (sym (div-div-eq-div-mul a 2 (2 ^ k)))

pub bit-bit_or : (k a b : ℕ) → bit (bit_or a b) k ≡ max (bit a k) (bit b k)
bit-bit_or zero a b = omega (arith, bit_or_step a b)
bit-bit_or (suc k) a b =
    let half : bit_or a b / 2 ≡ bit_or (a / 2) (b / 2) = omega (arith, bit_or_step a b) in
    rw (div-two-pow-suc (bit_or a b) k, div-two-pow-suc a k, div-two-pow-suc b k, half)
      (bit-bit_or k (a / 2) (b / 2))

pub bit-bit_and : (k a b : ℕ) → bit (bit_and a b) k ≡ min (bit a k) (bit b k)
bit-bit_and zero a b = omega (arith, bit_and_step a b)
bit-bit_and (suc k) a b =
    let half : bit_and a b / 2 ≡ bit_and (a / 2) (b / 2) = omega (arith, bit_and_step a b) in
    rw (div-two-pow-suc (bit_and a b) k, div-two-pow-suc a k, div-two-pow-suc b k, half)
      (bit-bit_and k (a / 2) (b / 2))

-- A test of all numbers below a bound, to be run; its success speaks of each of them.
unfoldable pub holds_below : ℕ → (ℕ → Bool) → Bool
holds_below zero test = true
holds_below (suc bound) test = holds_below bound test && test bound

pub holds_below-at :
    (bound : ℕ) (test : ℕ → Bool) (i : ℕ)
    → holds_below bound test ≡ true
    → i < bound
    → test i ≡ true
unfolding holds_below
holds_below-at zero test i ok small = absurd (omega arith)
holds_below-at (suc bound) test i ok small = ground (arith, holds_below-at bound test i, ok)

-- The word `1 << k` has the bit `k` and no other; its complement has all others.
one_bit_table :
    holds_below 32 (λ k. holds_below 32 (λ j. bit (2 ^ k) j == (if k == j then 1 else 0))) ≡ true
unfolding holds_below
one_bit_table = refl

not_bit_table :
    holds_below 32
      (λ k. holds_below 32 (λ j. bit (2 ^ 32 - 1 - 2 ^ k) j == (if k == j then 0 else 1)))
    ≡ true
unfolding holds_below
not_bit_table = refl

pub bit-one_bit : (k j : ℕ) → k < 32 → j < 32 → bit (2 ^ k) j ≡ (if k == j then 1 else 0)
bit-one_bit k j hk hj = (==_iff _ _).0 (
    holds_below-at 32 (λ j. bit (2 ^ k) j == (if k == j then 1 else 0)) j
      (holds_below-at 32 (λ k. holds_below 32 (λ j. bit (2 ^ k) j == (if k == j then 1 else 0))) k
        one_bit_table hk)
      hj)

pub bit-not_bit :
    (k j : ℕ) → k < 32 → j < 32 → bit (2 ^ 32 - 1 - 2 ^ k) j ≡ (if k == j then 0 else 1)
bit-not_bit k j hk hj = (==_iff _ _).0 (
    holds_below-at 32 (λ j. bit (2 ^ 32 - 1 - 2 ^ k) j == (if k == j then 0 else 1)) j
      (holds_below-at 32
        (λ k. holds_below 32 (λ j. bit (2 ^ 32 - 1 - 2 ^ k) j == (if k == j then 0 else 1))) k
        not_bit_table hk)
      hj)

-- A mask of no bits.
no_mask : (a bound : ℕ) → a ≤ bound → (bit_and a 0 ≡ 0) × (bit_or a 0 ≡ a)
no_mask zero bound le = (refl, refl)
no_mask (suc a) zero le = absurd (omega arith)
no_mask (suc a) (suc bound) le =
    let (none_left, all_left) = no_mask (suc a / 2) bound (omega arith) in
    (
      omega (arith, bit_and_step (suc a) 0, none_left),
      omega (arith, bit_or_step (suc a) 0, all_left),
    )

bit_and-zero : (a : ℕ) → bit_and a 0 ≡ 0
bit_and-zero a = (no_mask a a (le_refl _)).0

bit_or-zero : (a : ℕ) → bit_or a 0 ≡ a
bit_or-zero a = (no_mask a a (le_refl _)).1

pub bit_and-one : (a : ℕ) → bit_and a 1 ≡ a % 2
bit_and-one a = omega (arith, bit_and_step a 1, bit_and-zero (a / 2))

-- `(q << k) | r` is a sum when `r` fits below the shift.
pub bit_or_add : (k q r : ℕ) → r < 2 ^ k → bit_or (q * 2 ^ k) r ≡ q * 2 ^ k + r
bit_or_add zero q r fits =
    let r0 : r ≡ 0 = omega arith in rw r0 (omega (arith, bit_or-zero (q * 1)))
bit_or_add (suc k) q r fits =
    let double : q * 2 ^ suc k ≡ 2 * (q * 2 ^ k) =
      omega (arith, ap (λ (t : ℕ). q * t) (pow-suc 2 k)) in
    let half : q * 2 ^ suc k / 2 ≡ q * 2 ^ k = omega arith in
    let even : q * 2 ^ suc k % 2 ≡ 0 = omega arith in
    let small : r / 2 < 2 ^ k = omega (arith, pow-suc 2 k) in
    bit_or_step (q * 2 ^ suc k) r
    ∙ rw (half, even) (omega (arith, bit_or_add k q (r / 2) small, double))

mod-two-pow-suc : (a k : ℕ) → a % 2 ^ suc k ≡ a / 2 % 2 ^ k * 2 + a % 2
mod-two-pow-suc a k =
    let q : ℕ = a / 2 / 2 ^ k in
    let whole : 2 ^ suc k * q + a % 2 ^ suc k ≡ a =
      rw div-two-pow-suc at (div-add-mod a (2 ^ suc k)) in
    omega (arith, whole, div-add-mod (a / 2) (2 ^ k), ap (λ (t : ℕ). t * q) (pow-suc 2 k))

-- A mask of `k` low ones is the remainder by `2 ^ k`.
pub bit_and_low : (k a : ℕ) → bit_and a (2 ^ k - 1) ≡ a % 2 ^ k
bit_and_low zero a = omega (arith, bit_and-zero a)
bit_and_low (suc k) a =
    let half : (2 ^ suc k - 1) / 2 ≡ 2 ^ k - 1 = omega (arith, pow-suc 2 k, one-le-pow k 2) in
    let odd : (2 ^ suc k - 1) % 2 ≡ 1 = omega (arith, pow-suc 2 k, one-le-pow k 2 (omega arith)) in
    bit_and_step a (2 ^ suc k - 1)
    ∙ rw (half, odd) (omega (arith, bit_and_low k (a / 2), mod-two-pow-suc a k))

-- A mask with `k` low zeros works on the digits above.
pub bit_and_high : (k a m : ℕ) → bit_and a (m * 2 ^ k) ≡ bit_and (a / 2 ^ k) m * 2 ^ k
bit_and_high zero a m =
    let m1 : m * 2 ^ 0 ≡ m = omega arith in
    let a1 : a / 2 ^ 0 ≡ a = omega arith in rw (m1, a1) (omega arith)
bit_and_high (suc k) a m =
    let double : m * 2 ^ suc k ≡ 2 * (m * 2 ^ k) =
      omega (arith, ap (λ (t : ℕ). m * t) (pow-suc 2 k)) in
    let half : m * 2 ^ suc k / 2 ≡ m * 2 ^ k = omega arith in
    let even : m * 2 ^ suc k % 2 ≡ 0 = omega arith in
    bit_and_step a (m * 2 ^ suc k)
    ∙ rw (half, even, bit_and_high k (a / 2) m, div-two-pow-suc a k)
        (omega (arith, ap (λ (t : ℕ). bit_and (a / 2 / 2 ^ k) m * t) (pow-suc 2 k)))

-- The address mask of the page tables: `x & 0xFFFFF000` clears the low 12 bits of a word.
pub bit_and_page : (x : ℕ) → x < 2 ^ 32 → bit_and x 0xFFFFF000 ≡ x / 4096 * 4096
bit_and_page x h = bit_and_high 12 x 0xFFFFF ∙ omega (arith, bit_and_low 20 (x / 4096))

-- `x & ~7u` and `x & ~1u`, and `x | 1` of an even word.
pub bit_and_eights : (x : ℕ) → x < 2 ^ 32 → bit_and x 0xFFFFFFF8 ≡ x / 8 * 8
bit_and_eights x h = bit_and_high 3 x 0x1FFFFFFF ∙ omega (arith, bit_and_low 29 (x / 8))

pub bit_and_even : (x : ℕ) → x < 2 ^ 32 → bit_and x 0xFFFFFFFE ≡ x / 2 * 2
bit_and_even x h = bit_and_high 1 x 0x7FFFFFFF ∙ omega (arith, bit_and_low 31 (x / 2))

pub bit_or_one : (x : ℕ) → x % 2 ≡ 0 → bit_or x 1 ≡ x + 1
bit_or_one x h =
    let even : x ≡ x / 2 * 2 ^ 1 = omega arith in rw even (bit_or_add 1 (x / 2) 1 (omega arith))

-- Flags below a page's address change neither the address nor, but for their own, the lowest bit.
pub bit_or_above : (k x r : ℕ) → r < 2 ^ k → bit_or x r / 2 ^ k ≡ x / 2 ^ k
bit_or_above zero x r h =
    let none_set : r ≡ 0 = omega arith in rw none_set (ap (λ y. y / 2 ^ 0) (bit_or-zero x))
bit_or_above (suc k) x r h =
    let small : r / 2 < 2 ^ k = omega (arith, pow-suc 2 k) in
    let half : bit_or x r / 2 ≡ bit_or (x / 2) (r / 2) = omega (arith, bit_or_step x r) in
    rw (div-two-pow-suc (bit_or x r) k, div-two-pow-suc x k, half)
      (bit_or_above k (x / 2) (r / 2) small)

pub bit_or_mod_two : (x r : ℕ) → bit_or x r % 2 ≡ max (x % 2) (r % 2)
bit_or_mod_two x r = omega (arith, bit_or_step x r)
