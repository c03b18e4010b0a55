-- ===== src/Printf/Numbers.antt =====
-- The digits that a number prints as read back as the number, and fit their buffer.
use native.Mathlib.Nat.{pow-zero, pow-suc}
use neodymium.Base.{
  ℕ, zero, suc, ◌+◌, ◌-◌, ◌*◌, ◌/◌, ◌%◌, ◌^◌, ◌≤◌, ◌<◌, ◌≡◌, ◌≢◌, refl, ◌∙◌, ap, true, Option, some,
  List, [], ◌∷◌, arith, ltb, leb, ◌==◌, if◌then◌else◌, length, get_or, ==_iff, sub32, ◌>>>◌,
  Bool-cases, inl, inr, sym,
}
use neodymium.Base.Bits.{bit_and_low, holds_below, holds_below-at}
use neodymium.Printf.{
  digits_loop, dec_digit, hex_digit, hex_digits, print_dec, print_hex, print_int,
}

-- The value of a digit, 256 for a character that is none, and the value of a list of digits behind a
-- number already read.
pub digit_value : ℕ → ℕ
digit_value c =
    if ltb c b'0'
    then 256
    else if leb c b'9'
    then c - b'0'
    else if ltb c b'a'
    then 256
    else c - b'a' + 10

pub read_digits : (base : ℕ) → ℕ → List ℕ → ℕ
read_digits base acc [] = acc
read_digits base acc (c ∷ cs) = read_digits base (acc * base + digit_value c) cs

dec_digit-value : (n : ℕ) → digit_value (dec_digit n) ≡ n % 10
unfolding digit_value dec_digit
dec_digit-value n = ground arith

hex_digits-value : (r : ℕ) → r < 16 → digit_value (get_or hex_digits r 0) ≡ r
unfolding digit_value holds_below
hex_digits-value r h =
    (==_iff _ _).0 (holds_below-at 16 (λ r. digit_value (get_or hex_digits r 0) == r) r refl h)

hex_digit-value : (n : ℕ) → digit_value (hex_digit n) ≡ n % 16
unfolding hex_digit
hex_digit-value n =
    ap (λ r. digit_value (get_or hex_digits r 0)) (bit_and_low 4 n)
    ∙ hex_digits-value (n % 16) (omega arith)

-- What the loop prints in front of `out`, read as a number: `n`, then `out`.
record Prints (base room n : ℕ) (out : List ℕ) (r : Option (List ℕ)) : Type 0 where
  digits : List ℕ
  returned : r ≡ some digits
  reads : read_digits base 0 digits ≡ read_digits base n out
  fits : length digits ≤ room + length out

digits_loop-Prints :
    (base : ℕ) (digit step : ℕ → ℕ) (room n : ℕ) (out : List ℕ)
    → ((m : ℕ) → digit_value (digit m) ≡ m % base)
    → ((m : ℕ) → step m ≡ m / base)
    → ((m : ℕ) → m / base * base + m % base ≡ m)
    → ((m p : ℕ) → m < p * base → m / base < p)
    → n < base ^ room
    → Prints base room n out (digits_loop digit step room n out)
unfolding digits_loop read_digits
digits_loop-Prints base digit step zero n out hd hs split less h =
    let done : n ≡ 0 = omega (arith, pow-zero base) in
    let stop : (n == 0) ≡ true = ground arith in
    rw stop record { digits = out; returned = refl; reads = rw done refl; fits = omega arith }
digits_loop-Prints base digit step (suc room) n out hd hs split less h =
    elim (Bool-cases (n == 0)) [
      | inl zero_left ↦
          let done : n ≡ 0 = ground arith in
          rw zero_left
            record { digits = out; returned = refl; reads = rw done refl; fits = omega arith }
      | inr more ↦
          let rest =
            digits_loop-Prints base digit step room (step n) (digit n ∷ out) hd hs split less
              (rw (hs n) (less n (base ^ room) (omega (arith, pow-suc base room)))) in
          rw more record {
            digits = rest.digits;
            returned = rest.returned;
            reads = rest.reads ∙ ap (λ m. read_digits base m out) (rw (hs n, hd n) (split n));
            fits = omega (arith, rest.fits);
          }
    ]

read_digits-nonempty :
    (base n : ℕ) (ds : List ℕ) → read_digits base 0 ds ≡ n → n ≢ 0 → 0 < length ds
unfolding read_digits
read_digits-nonempty base n [] e ne = absurd (ne (sym e))
read_digits-nonempty base n (d ∷ ds) e ne = omega arith

-- `%u` of a word: the loop ends within the 12 cells of its buffer, and the digits, one at least, read
-- as the word.
pub print_dec-reads :
    (n : ℕ)
    → n < 2 ^ 32
    → (ds : List ℕ) × (print_dec n ≡ some ds)
      × (read_digits 10 0 ds ≡ n)
      × (0 < length ds)
      × (length ds ≤ 12)
unfolding print_dec read_digits digit_value
print_dec-reads n h = elim (Bool-cases (n == 0)) [
  | inl z ↦ rw z (b'0' ∷ [], refl, omega (arith, (==_iff n 0).0 z), omega arith, omega arith)
  | inr pos ↦
      let p =
        digits_loop-Prints 10 dec_digit (λ m. m / 10) 12 n [] dec_digit-value (λ m. refl)
          (λ m. omega arith) (λ m p less. omega arith) (omega arith) in
      let ne : n ≢ 0 = ground arith in
      rw pos (p.digits, p.returned, p.reads, read_digits-nonempty 10 n p.digits p.reads ne, p.fits)
]

-- `%x` of a word: the loop ends within the 10 cells of its buffer, and the digits, one at least, read
-- in base 16 as the word.
pub print_hex-reads :
    (n : ℕ)
    → n < 2 ^ 32
    → (ds : List ℕ) × (print_hex n ≡ some ds)
      × (read_digits 16 0 ds ≡ n)
      × (0 < length ds)
      × (length ds ≤ 10)
unfolding print_hex read_digits digit_value
print_hex-reads n h = elim (Bool-cases (n == 0)) [
  | inl z ↦ rw z (b'0' ∷ [], refl, omega (arith, (==_iff n 0).0 z), omega arith, omega arith)
  | inr pos ↦
      let p =
        digits_loop-Prints 16 hex_digit (λ m. m >>> 4) 10 n [] hex_digit-value (λ m. refl)
          (λ m. omega arith) (λ m p less. omega arith) (omega arith) in
      let ne : n ≢ 0 = ground arith in
      rw pos (p.digits, p.returned, p.reads, read_digits-nonempty 16 n p.digits p.reads ne, p.fits)
]

-- `%d` of an `int` other than the least one: a minus sign if it is negative, and digits, one at least
-- and 12 at most, that read as its absolute value.
pub print_int-reads :
    (w : ℕ)
    → w < 2 ^ 32
    → w ≢ 2 ^ 31
    → (ds : List ℕ) × (print_int w ≡ some (if ltb w (2 ^ 31) then ds else b'-' ∷ ds))
      × (read_digits 10 0 ds ≡ (if ltb w (2 ^ 31) then w else 2 ^ 32 - w))
      × (0 < length ds)
      × (length ds ≤ 12)
unfolding print_int
print_int-reads w h ne = elim (Bool-cases (ltb w (2 ^ 31))) [
  | inl plus ↦ rw plus (print_dec-reads w h)
  | inr minus ↦
      let neg : sub32 0 w ≡ 2 ^ 32 - w = ground arith in
      let small : ltb (sub32 0 w) (2 ^ 31) ≡ true = ground arith in
      let (ds, e, r, some_digit, fits) = print_dec-reads (sub32 0 w) (omega arith) in
      rw minus (rw small (ds, rw e refl, r ∙ neg, some_digit, fits))
]

-- The least `int` prints as a lone minus sign.
pub print_int_least : print_int (2 ^ 31) ≡ some (b'-' ∷ [])
unfolding print_int
print_int_least = refl
