-- ===== src/Printf/Tests.antt =====
-- Runs of the formatted output on concrete arguments.
use neodymium.Base.{
  ℕ, ◌^◌, ◌≤◌, ◌<◌, ◌-◌, ◌≡◌, ltb, if◌then◌else◌, arith, List, [], ◌∷◌, some, length,
}
use neodymium.Printf.{print_int, vprintf}
use neodymium.Printf.Numbers.{read_digits, print_int-reads}
use neodymium.Printf.Pieces.{
  Piece, literal, percent, text, signed, hex, format_of, args_of, AllShow, vprintf-output,
}

print_int-reads_example :
    (ds : List ℕ) × (print_int 0xFFFFFFFF
      ≡ some (if ltb 0xFFFFFFFF (2 ^ 31) then ds else b'-' ∷ ds))
    × (read_digits 10 0 ds ≡ (if ltb 0xFFFFFFFF (2 ^ 31) then 0xFFFFFFFF else 2 ^ 32 - 0xFFFFFFFF))
    × (0 < length ds)
    × (length ds ≤ 12)
print_int-reads_example = print_int-reads 0xFFFFFFFF (omega arith) (omega arith)

abbrev pieces : List Piece
pieces = literal b'a' ∷ hex 255 ∷ text (b'o' ∷ b'k' ∷ []) ∷ percent ∷ signed 0xFFFFFFFE ∷ []

vprintf-output_example :
    (out : List ℕ) × (vprintf (format_of pieces) (args_of pieces) ≡ some out) × AllShow pieces out
vprintf-output_example =
    vprintf-output pieces
      (λ (e : b'a' ≡ b'%'). omega arith, (omega arith, (_, (_, (omega arith, _)))))
