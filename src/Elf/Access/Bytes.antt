-- ===== src/Elf/Access/Bytes.antt =====
-- Bytes of words, and what a write of one byte does to the others.
use neodymium.Base.{
  ℕ, zero, suc, ◌/◌, ◌%◌, ◌<◌, ◌≡◌, ◌≢◌, refl, ap, ◌&&◌, arith, ◌==◌, if◌then◌else◌,
}
use neodymium.Elf.Access.{byte_of, with_byte, peek, poke}

-- A statement about the four bytes.
four : (P : ℕ → Type 0) → P 0 → P 1 → P 2 → P 3 → (k : ℕ) → k < 4 → P k
four P p0 p1 p2 p3 zero h = p0
four P p0 p1 p2 p3 (suc zero) h = p1
four P p0 p1 p2 p3 (suc (suc zero)) h = p2
four P p0 p1 p2 p3 (suc (suc (suc zero))) h = p3
four P p0 p1 p2 p3 (suc (suc (suc (suc k)))) h = absurd (omega arith)

byte_of-with_byte : (w b : ℕ) → b < 256 → (k : ℕ) → k < 4 → byte_of (with_byte w k b) k ≡ b
unfolding byte_of with_byte
byte_of-with_byte w b hb =
    four (λ k. byte_of (with_byte w k b) k ≡ b) (omega arith) (omega arith) (omega arith)
      (omega arith)

byte_of-with_byte_other :
    (w b : ℕ)
    → b < 256
    → (k : ℕ) → k < 4
    → (j : ℕ) → j < 4
    → k ≢ j
    → byte_of (with_byte w k b) j ≡ byte_of w j
unfolding byte_of with_byte
byte_of-with_byte_other w b hb =
    four (λ k. (j : ℕ) → j < 4 → k ≢ j → byte_of (with_byte w k b) j ≡ byte_of w j)
      (four _ (λ ne. absurd (ne refl)) (λ ne. omega arith) (λ ne. omega arith) (λ ne. omega arith))
      (four _ (λ ne. omega arith) (λ ne. absurd (ne refl)) (λ ne. omega arith) (λ ne. omega arith))
      (four _ (λ ne. omega arith) (λ ne. omega arith) (λ ne. absurd (ne refl)) (λ ne. omega arith))
      (four _ (λ ne. omega arith) (λ ne. omega arith) (λ ne. omega arith) (λ ne. absurd (ne refl)))

-- A write of a byte, read back.
pub peek-poke :
    (mem : ℕ → ℕ → ℕ) (p o b q i : ℕ)
    → b < 256
    → peek (poke mem p o b) q i ≡ (if (q == p) && (i == o) then b else peek mem q i)
unfolding peek poke
peek-poke mem p o b q i hb = ground (
  arith,
  byte_of-with_byte (mem p (o / 4)) b hb (o % 4) (omega arith),
  byte_of-with_byte_other (mem p (o / 4)) b hb (o % 4) (omega arith) (i % 4) (omega arith),
)

pub peek-lt : (mem : ℕ → ℕ → ℕ) (q i : ℕ) → peek mem q i < 256
unfolding peek byte_of
peek-lt mem q i = omega arith

pub poke_other : (mem : ℕ → ℕ → ℕ) (p o b q x : ℕ) → p ≢ q → poke mem p o b q x ≡ mem q x
unfolding poke
poke_other mem p o b q x ne = ground arith

pub peek_words :
    (m m' : ℕ → ℕ → ℕ) (q o : ℕ) → ((x : ℕ) → m q x ≡ m' q x) → peek m q o ≡ peek m' q o
unfolding peek
peek_words m m' q o h = ap (λ w. byte_of w (o % 4)) (h (o / 4))
