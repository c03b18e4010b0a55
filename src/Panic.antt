-- ===== src/Panic.antt =====
-- The panic message, src/kernel/panic.c: the formatting into a buffer of 256 bytes, the hexadecimal
-- strings of the screen, and the walk of the stack frames; Screen and Report have the rest. A message
-- is the list of the bytes in the buffer so far, so that `mi` is its length. `none` is a run that C
-- leaves undefined, as in Printf.
pub mod Bounds
pub mod Screen
pub mod Report
mod Tests
use neodymium.Base.{
  ℕ, zero, suc, ◌+◌, ◌/◌, ◌%◌, ◌^◌, Bool, true, false, Option, none, some, List, [], ◌∷◌, ◌++◌, ltb,
  ◌==◌, ◌&&◌, not, if◌then◌else◌, length, sub32, ◌>>>◌,
}
use neodymium.Printf.{Arg, word, string, with_args, digits_loop, dec_digit, hex_digit}

-- `msg[mi++] = c`.
abbrev pub put : List ℕ → ℕ → List ℕ
put msg c = msg ++ (c ∷ [])

-- `while (*s && mi < 250) msg[mi++] = *s++`, and the loop that copies the digits.
pub put_all : List ℕ → List ℕ → List ℕ
put_all msg [] = msg
put_all msg (c ∷ cs) =
    let rest = put_all (put msg c) cs in if ltb (length msg) 250 then rest else msg

pub put_digits : List ℕ → Option (List ℕ) → Option (List ℕ)
put_digits msg none = none
put_digits msg (some ds) = some (put_all msg ds)

-- The digits of a positive number, in a buffer of `room` cells; 0 prints as "0".
pub dec_digits : ℕ → Option (List ℕ)
dec_digits n = if n == 0 then some (b'0' ∷ []) else digits_loop dec_digit (λ m. m / 10) 12 n []

pub hex_string : ℕ → Option (List ℕ)
hex_string n = if n == 0 then some (b'0' ∷ []) else digits_loop hex_digit (λ m. m >>> 4) 10 n []

-- `%d`. The negation wraps at the least `int`, and no digit follows the sign then.
pub put_int : List ℕ → ℕ → Option (List ℕ)
put_int msg w =
    if ltb w (2 ^ 31)
    then put_digits msg (dec_digits w)
    else put_digits (put msg b'-')
        (if ltb (sub32 0 w) (2 ^ 31) then dec_digits (sub32 0 w) else some [])

pub directive_word : (List ℕ → ℕ → Option (List ℕ)) → List ℕ → List Arg → Option (List ℕ × List Arg)
directive_word step msg (word w ∷ args) = with_args (step msg w) args
directive_word step msg _ = none

pub directive_string : List ℕ → List Arg → Option (List ℕ × List Arg)
directive_string msg (string s ∷ args) = some (put_all msg s, args)
directive_string msg _ = none

-- The switch on the character `d` behind a percent sign.
pub directive : ℕ → List ℕ → List Arg → Option (List ℕ × List Arg)
directive d msg args =
    if d == b's'
    then directive_string msg args
    else if d == b'd'
    then directive_word put_int msg args
    else if d == b'u'
    then directive_word (λ m w. put_digits m (dec_digits w)) msg args
    else if d == b'x'
    then directive_word (λ m w. put_digits (put (put m b'0') b'x') (hex_string w)) msg args
    else if d == b'c'
    then directive_word (λ m w. some (put m (w % 2 ^ 8))) msg args
    else if ltb (length msg) 249
    then some (put (put msg b'%') d, args)
    else some (msg, args)

pub then_format :
    Option (List ℕ × List Arg) → (List ℕ → List Arg → Option (List ℕ)) → Option (List ℕ)
then_format none go = none
then_format (some (msg, left)) go = go msg left

-- The loop of `fmt_msg`; its last write, `msg[mi] = 0`, is left to `fmt_msg`.
pub fmt_loop : List ℕ → List ℕ → List Arg → Option (List ℕ)
fmt_loop [] msg args = some msg
fmt_loop (c ∷ []) msg args = some (if ltb (length msg) 250 then put msg c else msg)
fmt_loop (c ∷ d ∷ fmt) msg args = elim (ltb (length msg) 250) [
  | false ↦ some msg
  | true ↦ elim (c == b'%') [
    | true ↦ then_format (directive d msg args) (fmt_loop fmt)
    | false ↦ fmt_loop (d ∷ fmt) (put msg c) args
  ]
]

pub terminate : Option (List ℕ) → Option (List ℕ)
terminate none = none
terminate (some msg) = some (put msg 0)

-- `fmt_msg`, which puts the terminating zero behind the message.
pub fmt_msg : List ℕ → List Arg → Option (List ℕ)
fmt_msg fmt args = terminate (fmt_loop fmt [] args)

-- `hex_str`: "0x", the digits and a zero.
pub hex_str : ℕ → Option (List ℕ)
hex_str v = elim (hex_string v) [ none ↦ none | some ds ↦ some (b'0' ∷ b'x' ∷ ds ++ (0 ∷ [])) ]

pub frame_read : Option ℕ → Option ℕ → (ℕ → Option (List ℕ)) → Option (List ℕ)
frame_read none next walk = none
frame_read (some ret) none walk = none
frame_read (some ret) (some next) walk = elim (walk next) [
  | none ↦ none
  | some fs ↦ some (ret ∷ fs)
]

-- `walk_frames`: at most `n` return addresses from the frame pointer on; `mem` reads a word, and `none`
-- is a page fault, which starts another panic.
pub walk_frames : (mem : ℕ → Option ℕ) (n fp : ℕ) → Option (List ℕ)
walk_frames mem zero fp = some []
walk_frames mem (suc n) fp =
    if fp == 0 then some [] else frame_read (mem (fp + 4)) (mem fp) (walk_frames mem n)
