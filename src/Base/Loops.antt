-- ===== src/Base/Loops.antt =====
-- Counted loops that write arrays.
use Prim.Native.Nat.{ℕ, zero, suc}
use mathlib.Core.Path.{◌≡◌, refl, ap, ◌∙◌}
use mathlib.Core.Bool.{false, ◌&&◌}
use native.Mathlib.Omega.{arith}
use neodymium.Base.Tests.{◌==◌, ltb, if◌then◌else◌}

-- `for (i = 0; i < n; i++) s = f(i, s)`.
abbrev pub for_below {ℓ} : {S : Type ℓ} → ℕ → (ℕ → S → S) → S → S
for_below zero f s = s
for_below (suc n) f s = f n (for_below n f s)

-- `a[y][x] = v`.
abbrev pub update2 : (ℕ → ℕ → ℕ) → ℕ → ℕ → ℕ → ℕ → ℕ → ℕ
update2 a y x v j i = if (j == y) && (i == x) then v else a j i

-- A loop over a row that copies another one, or fills it.
pub copy_row_lem :
    (a : ℕ → ℕ → ℕ) (n to from j i : ℕ)
    → (to == from) ≡ false
    → for_below n (λ x b. update2 b to x (b from x)) a j i
      ≡ (if (j == to) && ltb i n then a from i else a j i)
copy_row_lem a zero to from j i h = ground arith
copy_row_lem a (suc n) to from j i h =
    ground (arith, copy_row_lem a n to from j i h, copy_row_lem a n to from from n h)

pub fill_row_lem :
    (a : ℕ → ℕ → ℕ) (n row v j i : ℕ)
    → for_below n (λ x b. update2 b row x v) a j i ≡ (if (j == row) && ltb i n then v else a j i)
fill_row_lem a zero row v j i = ground arith
fill_row_lem a (suc n) row v j i = ground (arith, fill_row_lem a n row v j i)

-- Copying row `y + 1` over row `y` for each `y` below `m` shifts the rows up by one.
pub shift_rows_lem :
    (a : ℕ → ℕ → ℕ) (n m j i : ℕ)
    → for_below m (λ y b. for_below n (λ x c. update2 c y x (c (suc y) x)) b) a j i
      ≡ (if ltb j m && ltb i n then a (suc j) i else a j i)
shift_rows_lem a n zero j i = ground arith
shift_rows_lem a n (suc m) j i = ground (
  arith,
  copy_row_lem (for_below m (λ y b. for_below n (λ x c. update2 c y x (c (suc y) x)) b) a) n m
      (suc m) j i,
  shift_rows_lem a n m j i,
  shift_rows_lem a n m (suc m) i,
)

-- What each round of a loop keeps, the loop keeps.
pub for_below-keeps {ℓ ℓ'} :
    {S : Type ℓ} (P : S → Type ℓ') (n : ℕ) (f : ℕ → S → S) (s : S)
    → ((i : ℕ) (t : S) → P t → P (f i t))
    → P s
    → P (for_below n f s)
for_below-keeps P zero f s step p = p
for_below-keeps P (suc n) f s step p = step n (for_below n f s) (for_below-keeps P n f s step p)

-- A loop on a part of the state.
pub for_below-part {ℓ ℓ'} :
    {S : Type ℓ} {T : Type ℓ'} (g : T → S) (n : ℕ) (f : ℕ → S → S) (h : ℕ → T → T) (t : T)
    → ((i : ℕ) (u : T) → f i (g u) ≡ g (h i u))
    → for_below n f (g t) ≡ g (for_below n h t)
for_below-part g zero f h t e = refl
for_below-part g (suc n) f h t e = ap (f n) (for_below-part g n f h t e) ∙ e n (for_below n h t)

-- Two bodies that agree where `P` holds.
pub for_below-agree {ℓ ℓ'} :
    {S : Type ℓ} (P : S → Type ℓ') (n : ℕ) (f g : ℕ → S → S) (s : S)
    → ((i : ℕ) (t : S) → P t → P (f i t))
    → ((i : ℕ) (t : S) → P t → f i t ≡ g i t)
    → P s
    → for_below n f s ≡ for_below n g s
for_below-agree P zero f g s keep same p = refl
for_below-agree P (suc n) f g s keep same p =
    same n (for_below n f s) (for_below-keeps P n f s keep p)
    ∙ ap (g n) (for_below-agree P n f g s keep same p)

-- A loop that writes the cells of a row.
pub write_row_lem :
    (a : ℕ → ℕ → ℕ) (n row : ℕ) (v : ℕ → ℕ) (j i : ℕ)
    → for_below n (λ x b. update2 b row x (v x)) a j i
      ≡ (if (j == row) && ltb i n then v i else a j i)
write_row_lem a zero row v j i = ground arith
write_row_lem a (suc n) row v j i = ground (arith, write_row_lem a n row v j i)
