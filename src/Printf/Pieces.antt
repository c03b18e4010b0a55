-- ===== src/Printf/Pieces.antt =====
-- Formatted output by its pieces: a format built from literal characters and conversions, with the
-- arguments they take and the characters they stand for.
use neodymium.Base.{
  ℕ, ◌%◌, ◌^◌, ◌<◌, ◌≡◌, ◌≢◌, refl, ◌∙◌, ap, Bool, true, false, Option, none, some, List, [], ◌∷◌,
  ◌++◌, ◌==◌, ==_ne, ==_iff, ltb, length, ◌-◌, Bool-cases, inl, inr, arith,
}
use neodymium.Printf.{
  Arg, word, string, print_dec, print_hex, print_int, with_args, then_print, take_word, take_string,
  convert, append, vprintf,
}
use neodymium.Printf.Numbers.{
  read_digits, print_dec-reads, print_hex-reads, print_int-reads, print_int_least,
}

pub data Piece : Type 0 where
  literal : ℕ → Piece
  percent : Piece
  text : List ℕ → Piece
  signed : ℕ → Piece
  unsigned : ℕ → Piece
  hex : ℕ → Piece
  char : ℕ → Piece

-- A piece's part of the format, of the arguments and of the output.
unfoldable pub format_of : List Piece → List ℕ
format_of [] = []
format_of (literal c ∷ ps) = c ∷ format_of ps
format_of (percent ∷ ps) = b'%' ∷ b'%' ∷ format_of ps
format_of (text s ∷ ps) = b'%' ∷ b's' ∷ format_of ps
format_of (signed w ∷ ps) = b'%' ∷ b'd' ∷ format_of ps
format_of (unsigned w ∷ ps) = b'%' ∷ b'u' ∷ format_of ps
format_of (hex w ∷ ps) = b'%' ∷ b'x' ∷ format_of ps
format_of (char w ∷ ps) = b'%' ∷ b'c' ∷ format_of ps

unfoldable pub args_of : List Piece → List Arg
args_of [] = []
args_of (literal c ∷ ps) = args_of ps
args_of (percent ∷ ps) = args_of ps
args_of (text s ∷ ps) = string s ∷ args_of ps
args_of (signed w ∷ ps) = word w ∷ args_of ps
args_of (unsigned w ∷ ps) = word w ∷ args_of ps
args_of (hex w ∷ ps) = word w ∷ args_of ps
args_of (char w ∷ ps) = word w ∷ args_of ps

pub shown : Piece → Option (List ℕ)
shown (literal c) = some (c ∷ [])
shown percent = some (b'%' ∷ [])
shown (text s) = some s
shown (signed w) = print_int w
shown (unsigned w) = print_dec w
shown (hex w) = print_hex w
shown (char w) = some (w % 2 ^ 8 ∷ [])

unfoldable pub join : Option (List ℕ) → Option (List ℕ) → Option (List ℕ)
join none rest = none
join (some out) rest = append out rest

pub output_of : List Piece → Option (List ℕ)
output_of [] = some []
output_of (p ∷ ps) = join (shown p) (output_of ps)

-- No literal is a percent sign, and the numbers are words.
abbrev pub IsPiece : Piece → Type 0
IsPiece (literal c) = c ≢ b'%'
IsPiece percent = Unit
IsPiece (text s) = Unit
IsPiece (signed w) = w < 2 ^ 32
IsPiece (unsigned w) = w < 2 ^ 32
IsPiece (hex w) = w < 2 ^ 32
IsPiece (char w) = Unit

abbrev pub ArePieces : List Piece → Type 0
ArePieces [] = Unit
ArePieces (p ∷ ps) = IsPiece p × ArePieces ps

other_branch :
    (x y : Option (List ℕ)) (b : Bool) → b ≡ false → (elim b [ true ↦ x | false ↦ y ]) ≡ y
other_branch x y b e = rw e refl

literal_step :
    (c : ℕ) (fmt : List ℕ) (args : List Arg)
    → c ≢ b'%'
    → vprintf (c ∷ fmt) args ≡ append (c ∷ []) (vprintf fmt args)
unfolding vprintf append
literal_step c [] args ne = rw (==_ne c b'%' ne) refl
literal_step c (d ∷ fmt) args ne = other_branch _ _ (c == b'%') (==_ne c b'%' ne)

convert_step :
    (d : ℕ) (out : Option (List ℕ)) (fmt : List ℕ) (args left : List Arg)
    → convert d args ≡ with_args out left
    → vprintf (b'%' ∷ d ∷ fmt) args ≡ join out (vprintf fmt left)
unfolding vprintf with_args then_print join
convert_step d none fmt args left e = ap (λ r. then_print r (vprintf fmt)) e
convert_step d (some out) fmt args left e = ap (λ r. then_print r (vprintf fmt)) e

-- `vprintf` of a format built from pieces prints what the pieces stand for, one after the other.
pub vprintf_lem :
    (ps : List Piece) → ArePieces ps → vprintf (format_of ps) (args_of ps) ≡ output_of ps
unfolding format_of args_of output_of shown join convert take_word take_string with_args
vprintf_lem [] h = unfold vprintf in refl
vprintf_lem (literal c ∷ ps) h =
    literal_step c (format_of ps) (args_of ps) h.0 ∙ ap (append (c ∷ [])) (vprintf_lem ps h.1)
vprintf_lem (percent ∷ ps) h =
    convert_step b'%' (some (b'%' ∷ [])) (format_of ps) (args_of ps) (args_of ps) refl
    ∙ ap (join (some (b'%' ∷ []))) (vprintf_lem ps h.1)
vprintf_lem (text s ∷ ps) h =
    convert_step b's' (some s) (format_of ps) (string s ∷ args_of ps) (args_of ps) refl
    ∙ ap (join (some s)) (vprintf_lem ps h.1)
vprintf_lem (signed w ∷ ps) h =
    convert_step b'd' (print_int w) (format_of ps) (word w ∷ args_of ps) (args_of ps) refl
    ∙ ap (join (print_int w)) (vprintf_lem ps h.1)
vprintf_lem (unsigned w ∷ ps) h =
    convert_step b'u' (print_dec w) (format_of ps) (word w ∷ args_of ps) (args_of ps) refl
    ∙ ap (join (print_dec w)) (vprintf_lem ps h.1)
vprintf_lem (hex w ∷ ps) h =
    convert_step b'x' (print_hex w) (format_of ps) (word w ∷ args_of ps) (args_of ps) refl
    ∙ ap (join (print_hex w)) (vprintf_lem ps h.1)
vprintf_lem (char w ∷ ps) h =
    convert_step b'c' (some (w % 2 ^ 8 ∷ [])) (format_of ps) (word w ∷ args_of ps) (args_of ps) refl
    ∙ ap (join (some (w % 2 ^ 8 ∷ []))) (vprintf_lem ps h.1)

-- The characters a piece stands for: digits, one at least, that read as the number; for `%d` the number
-- is signed, with a minus sign in front of the digits of a negative one, and the least `int` is a lone
-- minus sign.
abbrev pub ReadsAs : (base n : ℕ) → List ℕ → Type 0
ReadsAs base n ds = (read_digits base 0 ds ≡ n) × (0 < length ds)

pub data ShowsInt (w : ℕ) : List ℕ → Type 0 where
  positive : (ds : List ℕ) → w < 2 ^ 31 → ReadsAs 10 w ds → ShowsInt w ds
  negative : (ds : List ℕ) → 2 ^ 31 < w → ReadsAs 10 (2 ^ 32 - w) ds → ShowsInt w (b'-' ∷ ds)
  least : w ≡ 2 ^ 31 → ShowsInt w (b'-' ∷ [])

abbrev pub Shows : Piece → List ℕ → Type 0
Shows (literal c) out = out ≡ c ∷ []
Shows percent out = out ≡ b'%' ∷ []
Shows (text s) out = out ≡ s
Shows (signed w) out = ShowsInt w out
Shows (unsigned w) out = ReadsAs 10 w out
Shows (hex w) out = ReadsAs 16 w out
Shows (char w) out = out ≡ w % 2 ^ 8 ∷ []

-- Every piece is shown, in order, and nothing else.
abbrev pub AllShow : List Piece → List ℕ → Type 0
AllShow [] out = out ≡ []
AllShow (p ∷ ps) out = (now rest : List ℕ) × (out ≡ now ++ rest) × Shows p now × AllShow ps rest

print_int-ShowsInt :
    (w : ℕ) → w < 2 ^ 32 → (out : List ℕ) × (print_int w ≡ some out) × ShowsInt w out
print_int-ShowsInt w h = elim (Bool-cases (w == 2 ^ 31)) [
  | inl same ↦
      let e : w ≡ 2 ^ 31 = (==_iff w (2 ^ 31)).0 same in
      (b'-' ∷ [], ap print_int e ∙ print_int_least, least e)
  | inr other ↦
      let ne : w ≢ 2 ^ 31 = ground arith in
      let (ds, e, reads, some_digit, _) = print_int-reads w h ne in
      elim (Bool-cases (ltb w (2 ^ 31))) [
        | inl plus ↦
            (ds, e ∙ rw plus refl, positive ds (ground arith) (reads ∙ rw plus refl, some_digit))
        | inr minus ↦ (
          b'-' ∷ ds,
          e ∙ rw minus refl,
          negative ds (ground arith) (reads ∙ rw minus refl, some_digit),
        )
      ]
]

shown-Shows : (p : Piece) → IsPiece p → (out : List ℕ) × (shown p ≡ some out) × Shows p out
unfolding shown
shown-Shows (literal c) h = (c ∷ [], refl, refl)
shown-Shows percent h = (b'%' ∷ [], refl, refl)
shown-Shows (text s) h = (s, refl, refl)
shown-Shows (signed w) h = print_int-ShowsInt w h
shown-Shows (unsigned w) h =
    let (out, e, reads, some_digit, _) = print_dec-reads w h in (out, e, (reads, some_digit))
shown-Shows (hex w) h =
    let (out, e, reads, some_digit, _) = print_hex-reads w h in (out, e, (reads, some_digit))
shown-Shows (char w) h = (w % 2 ^ 8 ∷ [], refl, refl)

-- The pieces' output is there: no argument is missing or of another kind, no number overruns its
-- buffer.
pub output_of-AllShow :
    (ps : List Piece) → ArePieces ps → (out : List ℕ) × (output_of ps ≡ some out) × AllShow ps out
unfolding output_of join append
output_of-AllShow [] h = ([], refl, refl)
output_of-AllShow (p ∷ ps) h =
    let (now, e, shows) = shown-Shows p h.0 in
    let (rest, f, all) = output_of-AllShow ps h.1 in
    (now ++ rest, rw (e, f) refl, (now, rest, refl, shows, all))

-- For a format built from pieces, with no literal percent sign and numbers that are words, `vprintf`
-- returns and prints what the pieces show, one after the other: a literal, `%%`, a string and the low
-- byte of a `%c` as they are; for `%u` and `%x` at least one digit, and the digits read in base 10 and
-- 16 as the number; for `%d` the same of the absolute value, behind a minus sign if it is negative,
-- and a lone minus sign for the least `int`.
pub vprintf-output :
    (ps : List Piece)
    → ArePieces ps
    → (out : List ℕ) × (vprintf (format_of ps) (args_of ps) ≡ some out) × AllShow ps out
vprintf-output ps h = let (out, e, all) = output_of-AllShow ps h in (out, vprintf_lem ps h ∙ e, all)
