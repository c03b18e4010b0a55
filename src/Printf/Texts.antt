-- ===== src/Printf/Texts.antt =====
-- The formats that the loops over the keys print.
use neodymium.Base.{ℕ, ◌^◌, ◌%◌, ◌<◌, ◌≡◌, refl, true, some, arith, List, [], ◌∷◌, ◌++◌, ltb}
use neodymium.Printf.{word, vprintf, append, then_print, convert, take_word, with_args, print_int}
use neodymium.Printf.Numbers.{print_int-reads}

-- A text without a percent sign prints as it stands.
pub vprintf_erase : vprintf (8 ∷ b' ' ∷ 8 ∷ []) [] ≡ some (8 ∷ b' ' ∷ 8 ∷ [])
unfolding vprintf append
vprintf_erase = refl

pub vprintf_char : (c : ℕ) → vprintf (b'%' ∷ b'c' ∷ []) (word c ∷ []) ≡ some (c % 2 ^ 8 ∷ [])
unfolding vprintf append then_print convert take_word with_args
vprintf_char c = refl

pub vprintf_function_key :
    (n : ℕ)
    → n < 2 ^ 31
    → (ds : List ℕ) × (vprintf (b'[' ∷ b'F' ∷ b'%' ∷ b'd' ∷ b']' ∷ []) (word n ∷ [])
        ≡ some (b'[' ∷ b'F' ∷ ds ++ (b']' ∷ [])))
unfolding vprintf append then_print convert take_word with_args
vprintf_function_key n h =
    let (ds, e, _, _, _) = print_int-reads n (omega arith) (omega arith) in
    let plus : ltb n (2 ^ 31) ≡ true = ground arith in
    let e' : print_int n ≡ some ds = rw plus at e in (ds, rw e' refl)
