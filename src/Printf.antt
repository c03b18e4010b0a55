-- ===== src/Printf.antt =====
-- Formatted output, src/kernel/printf.c: the conversions of `vprintf` and its loop over the format.
-- A string is the list of its bytes before the NUL. The output is the list of the characters that
-- `putchar` sends, each to the serial port and to the console. `none` is a run that C leaves
-- undefined: an argument that is missing or of another kind, a `%` at the end of the format, a
-- write past the end of a digit buffer.
pub mod Numbers
pub mod Pieces
pub mod Texts
mod Tests
use neodymium.Base.{
  ℕ, zero, suc, ◌+◌, ◌-◌, ◌/◌, ◌%◌, ◌^◌, bit_and, Bool, true, false, Option, none, some, List, [],
  ◌∷◌, ◌++◌, ltb, ◌==◌, if◌then◌else◌, get_or, sub32, ◌>>>◌,
}

pub data Arg : Type 0 where
  word : ℕ → Arg
  string : List ℕ → Arg

-- The loop that fills a buffer of `room` cells with the digits of `n`, and the loop that prints them
-- from the last to the first. `digit` and `step` are the loop's two expressions.
pub digits_loop : (digit step : ℕ → ℕ) (room n : ℕ) → List ℕ → Option (List ℕ)
digits_loop digit step zero n out = if n == 0 then some out else none
digits_loop digit step (suc room) n out =
    let rest = digits_loop digit step room (step n) (digit n ∷ out) in
    if n == 0 then some out else rest

pub dec_digit : ℕ → ℕ
dec_digit n = b'0' + n % 10

abbrev pub hex_digits : List ℕ
hex_digits =
    b'0' ∷ b'1' ∷ b'2' ∷ b'3' ∷ b'4' ∷ b'5' ∷ b'6' ∷ b'7' ∷ b'8' ∷ b'9' ∷ b'a' ∷ b'b' ∷ b'c' ∷ b'd'
    ∷ b'e' ∷ b'f' ∷ []

pub hex_digit : ℕ → ℕ
hex_digit n = get_or hex_digits (bit_and n 0xF) 0

pub print_dec : ℕ → Option (List ℕ)
print_dec n = if n == 0 then some (b'0' ∷ []) else digits_loop dec_digit (λ m. m / 10) 12 n []

unfoldable pub print_hex : ℕ → Option (List ℕ)
print_hex n = if n == 0 then some (b'0' ∷ []) else digits_loop hex_digit (λ m. m >>> 4) 10 n []

-- `%d` of the word that holds an `int`. `n = -n` wraps at the least `int`, and the loop
-- `while (n > 0)` then makes no round.
pub print_int : ℕ → Option (List ℕ)
print_int w =
    if ltb w (2 ^ 31)
    then print_dec w
    else elim (if ltb (sub32 0 w) (2 ^ 31) then print_dec (sub32 0 w) else some []) [
      | none ↦ none
      | some ds ↦ some (b'-' ∷ ds)
    ]

-- A conversion's characters, with the arguments that are left.
unfoldable pub with_args : Option (List ℕ) → List Arg → Option (List ℕ × List Arg)
with_args none args = none
with_args (some out) args = some (out, args)

pub take_word : (ℕ → Option (List ℕ)) → List Arg → Option (List ℕ × List Arg)
take_word print (word w ∷ args) = with_args (print w) args
take_word print _ = none

pub take_string : List Arg → Option (List ℕ × List Arg)
take_string (string s ∷ args) = some (s, args)
take_string _ = none

pub convert : ℕ → List Arg → Option (List ℕ × List Arg)
convert d args =
    if d == b's'
    then take_string args
    else if d == b'd'
    then take_word print_int args
    else if d == b'u'
    then take_word print_dec args
    else if d == b'x'
    then take_word print_hex args
    else if d == b'c'
    then take_word (λ w. some (w % 2 ^ 8 ∷ [])) args
    else if d == b'%'
    then some (b'%' ∷ [], args)
    else some ([], args)

unfoldable pub append : List ℕ → Option (List ℕ) → Option (List ℕ)
append out none = none
append out (some rest) = some (out ++ rest)

-- A conversion's characters, then what `print` makes of the arguments that are left.
pub then_print : Option (List ℕ × List Arg) → (List Arg → Option (List ℕ)) → Option (List ℕ)
then_print none print = none
then_print (some (out, left)) print = append out (print left)

pub vprintf : List ℕ → List Arg → Option (List ℕ)
vprintf [] args = some []
vprintf (c ∷ []) args = if c == b'%' then none else some (c ∷ [])
vprintf (c ∷ d ∷ fmt) args = elim (c == b'%') [
  | true ↦ then_print (convert d args) (vprintf fmt)
  | false ↦ append (c ∷ []) (vprintf (d ∷ fmt) args)
]
