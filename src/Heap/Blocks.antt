-- ===== src/Heap/Blocks.antt =====
-- The free list as a list of blocks, address and size: what `malloc` and `free` do to it, and to
-- the set of free bytes.
use mathlib.Core.Path.{subst}
use neodymium.Base.{
  ℕ, ◌+◌, ◌-◌, ◌%◌, ◌^◌, ◌≤◌, ◌<◌, ◌≡◌, ◌⊎◌, refl, Bool, true, false, not, ◌&&◌, ◌||◌, List, [],
  ◌∷◌, Option, none, some, arith, ltb, leb, ◌==◌, if◌then◌else◌, Bool-cases, Option-cases, inl, inr,
  leb→le,
}
use neodymium.Heap.{heap_min_block, heap_align}

abbrev pub Blocks : Type 0
Blocks = List (ℕ × ℕ)

-- The byte `x` lies in the block of `s` bytes at `a`.
abbrev pub in_block : ℕ → ℕ → ℕ → Bool
in_block a s x = leb a x && ltb x (a + s)

abbrev pub has_byte : Blocks → ℕ → Bool
has_byte [] x = false
has_byte ((a, s) ∷ bs) x = in_block a s x || has_byte bs x

-- A block as the heap makes them: aligned, not null, large enough for its header, below 2 ^ 32.
pub record IsBlock (a s : ℕ) : Type 0 where
  pub aligned : a % heap_align ≡ 0
  pub whole : s % heap_align ≡ 0
  pub not_null : 0 < a
  pub large : heap_min_block ≤ s
  pub fits : a + s ≤ 2 ^ 32

-- From address `lo` on the blocks are in order, and no two of them touch.
abbrev pub IsOrdered : ℕ → Blocks → Type 0
IsOrdered lo [] = Unit {0}
IsOrdered lo ((a, s) ∷ bs) = IsBlock a s × (lo < a) × IsOrdered (a + s) bs

pub IsOrdered-weaken : {lo hi : ℕ} (bs : Blocks) → IsOrdered hi bs → lo ≤ hi → IsOrdered lo bs
IsOrdered-weaken [] o h = tt
IsOrdered-weaken ((a, s) ∷ bs) o h = (o.0, omega arith, o.2)

-- What first fit takes: the address and size of the block, and the list that remains.
pub record Fit : Type 0 where
  pub address : ℕ
  pub size : ℕ
  pub rest : Blocks

unfoldable pub first_fit : ℕ → Blocks → Option Fit
first_fit n [] = none
first_fit n ((a, s) ∷ bs) =
    if leb n s
    then some (
        if leb heap_min_block (s - n)
        then record { address = a; size = n; rest = (a + n, s - n) ∷ bs }
        else record { address = a; size = s; rest = bs })
    else elim (first_fit n bs) [ none ↦ none | some f ↦ some (record f { rest = (a, s) ∷ f.rest }) ]

-- A block in front of a list, as one with the first block where they touch.
unfoldable pub join : ℕ → ℕ → Blocks → Blocks
join a s [] = (a, s) ∷ []
join a s ((b, t) ∷ bs) = if a + s == b then (a, s + t) ∷ bs else (a, s) ∷ (b, t) ∷ bs

-- A block goes back to its place.
unfoldable pub give_back : ℕ → ℕ → Blocks → Blocks
give_back a s [] = (a, s) ∷ []
give_back a s ((b, t) ∷ bs) =
    if ltb b a then join b t (give_back a s bs) else join a s ((b, t) ∷ bs)

-- No byte of the block at `a` is in the list.
abbrev pub Apart : ℕ → ℕ → Blocks → Type 0
Apart a s [] = Unit {0}
Apart a s ((b, t) ∷ bs) = ((a + s ≤ b) ⊎ (b + t ≤ a)) × Apart a s bs

-- What a fit is: a block of at least `n` bytes that were all free, the bytes of the rest are the
-- other free ones, and the rest is in order.
pub record Fits (n lo : ℕ) (bs : Blocks) (f : Fit) : Type 0 where
  pub block : IsBlock f.address f.size
  pub enough : n ≤ f.size
  pub above : lo < f.address
  pub was_free : (x : ℕ) → in_block f.address f.size x ≡ true → has_byte bs x ≡ true
  pub bytes : (x : ℕ) → has_byte f.rest x ≡ (has_byte bs x && not (in_block f.address f.size x))
  pub ordered : IsOrdered lo f.rest

pub has_byte-above :
    {lo : ℕ} (bs : Blocks) (x : ℕ) → IsOrdered lo bs → has_byte bs x ≡ true → lo < x
has_byte-above {lo} [] x o h = cc
has_byte-above {lo} ((a, s) ∷ bs) x o h = elim (Bool-cases (in_block a s x)) [
  | inl here ↦ ground arith
  | inr there ↦ omega (arith, has_byte-above {lo = a + s} bs x o.2 (rw there at h), o.0.large)
]

-- Taking the front of a block and leaving the rest.
front-Fits :
    {n lo a s : ℕ} (bs : Blocks)
    → IsOrdered lo ((a, s) ∷ bs)
    → n % heap_align ≡ 0
    → heap_min_block ≤ n
    → heap_min_block ≤ s - n
    → n ≤ s
    → Fits n lo ((a, s) ∷ bs) (record { address = a; size = n; rest = (a + n, s - n) ∷ bs })
front-Fits {n} {lo} {a} {s} bs o al mn more h = record {
  block = record {
    aligned = o.0.aligned;
    whole = al;
    not_null = o.0.not_null;
    large = mn;
    fits = omega (arith, o.0.fits);
  };
  enough = omega arith;
  above = o.1;
  was_free = λ x i. ground arith;
  bytes = λ x. ground (arith, has_byte-above bs x o.2);
  ordered = (
    record {
      aligned = omega (arith, o.0.aligned);
      whole = omega (arith, o.0.whole);
      not_null = omega (arith, o.0.not_null);
      large = more;
      fits = omega (arith, o.0.fits);
    },
    omega (arith, o.1),
    IsOrdered-weaken bs o.2 (omega arith),
  );
}

-- Taking a whole block.
whole-Fits :
    {n lo a s : ℕ} (bs : Blocks)
    → IsOrdered lo ((a, s) ∷ bs)
    → n ≤ s
    → Fits n lo ((a, s) ∷ bs) (record { address = a; size = s; rest = bs })
whole-Fits {n} {lo} {a} {s} bs o h = record {
  block = o.0;
  enough = h;
  above = o.1;
  was_free = λ x i. ground arith;
  bytes = λ x. ground (arith, has_byte-above bs x o.2);
  ordered = IsOrdered-weaken bs o.2 (omega (arith, o.1));
}

later-Fits :
    {n lo a s : ℕ} (bs : Blocks) {f : Fit}
    → IsOrdered lo ((a, s) ∷ bs)
    → Fits n (a + s) bs f
    → Fits n lo ((a, s) ∷ bs) (record f { rest = (a, s) ∷ f.rest })
later-Fits {n} {lo} {a} {s} bs {f} o t = record {
  block = t.block;
  enough = t.enough;
  above = omega (arith, t.above, o.1);
  was_free = λ x i. ground (arith, t.was_free x);
  bytes = λ x. ground (arith, t.bytes x, t.above);
  ordered = (o.0, o.1, t.ordered);
}

-- First fit keeps the list in order, and takes the bytes of one block and no others.
pub first_fit-Fits :
    {n lo : ℕ} (bs : Blocks) {f : Fit}
    → IsOrdered lo bs
    → n % heap_align ≡ 0
    → heap_min_block ≤ n
    → first_fit n bs ≡ some f
    → Fits n lo bs f
unfolding first_fit
first_fit-Fits {lo} [] o al mn e = cc
first_fit-Fits {n} {lo} ((a, s) ∷ bs) {f} o al mn e = elim (Bool-cases (leb n s)) [
  | inl enough ↦ elim (Bool-cases (leb heap_min_block (s - n))) [
    | inl more ↦
        let same : ◌≡◌ {A = Fit} (record { address = a; size = n; rest = (a + n, s - n) ∷ bs }) f =
          ground arith in
        subst (Fits n lo ((a, s) ∷ bs)) same
          (front-Fits bs o al mn (leb→le heap_min_block (s - n) more) (leb→le n s enough))
    | inr little ↦
        let same : ◌≡◌ {A = Fit} (record { address = a; size = s; rest = bs }) f = ground arith in
        subst (Fits n lo ((a, s) ∷ bs)) same (whole-Fits bs o (leb→le n s enough))
  ]
  | inr small ↦ elim (Option-cases (first_fit n bs)) [
    | inl nothing ↦ ground arith
    | inr (g, found) ↦
        let same : record g { rest = (a, s) ∷ g.rest } ≡ f = ground arith in
        subst (Fits n lo ((a, s) ∷ bs)) same
          (later-Fits bs o (first_fit-Fits {n = n} {lo = a + s} bs o.2 al mn found))
  ]
]

-- First fit fails only when every block is too small.
pub first_fit-none :
    (n : ℕ) (bs : Blocks) (a s : ℕ)
    → first_fit n ((a, s) ∷ bs) ≡ none
    → (s < n) × (first_fit n bs ≡ none)
unfolding first_fit
first_fit-none n bs a s e = ground arith

has_byte-join :
    (a s : ℕ) (bs : Blocks) (x : ℕ) → has_byte (join a s bs) x ≡ (in_block a s x || has_byte bs x)
unfolding join
has_byte-join a s [] x = refl
has_byte-join a s ((b, t) ∷ bs) x = ground arith

join-IsOrdered :
    {lo a s : ℕ} (bs : Blocks)
    → IsBlock a s
    → lo < a
    → IsOrdered (a + s - 1) bs
    → IsOrdered lo (join a s bs)
unfolding join
join-IsOrdered [] b h o = (b, h, tt)
join-IsOrdered {lo} {a} {s} ((c, t) ∷ bs) b h o = elim (Bool-cases (a + s == c)) [
  | inl touch ↦ rw touch (ground arith)
  | inr apart ↦ rw apart (ground arith)
]

-- Giving a block back keeps the list in order, with the bytes of the block free as well.
pub give_back-IsOrdered :
    {lo a s : ℕ} (bs : Blocks)
    → IsOrdered lo bs
    → IsBlock a s
    → lo < a
    → Apart a s bs
    → IsOrdered lo (give_back a s bs)
      × ((x : ℕ) → has_byte (give_back a s bs) x ≡ (in_block a s x || has_byte bs x))
unfolding give_back
give_back-IsOrdered {lo} [] o b h apart = ((b, h, tt), λ x. refl)
give_back-IsOrdered {lo} {a} {s} ((c, t) ∷ bs) o b h apart = elim (Bool-cases (ltb c a)) [
  | inl below ↦
      let rest : IsOrdered (c + t - 1) (give_back a s bs)
          × ((x : ℕ) → has_byte (give_back a s bs) x ≡ (in_block a s x || has_byte bs x)) =
        give_back-IsOrdered {lo = c + t - 1} {a = a} {s = s} bs
          (IsOrdered-weaken bs o.2 (omega arith)) b (ground arith) apart.1 in
      rw below (
        join-IsOrdered (give_back a s bs) o.0 o.1 rest.0,
        λ x. ground (arith, has_byte-join c t (give_back a s bs) x, rest.1 x),
      )
  | inr above ↦
      rw above
        (join-IsOrdered ((c, t) ∷ bs) b h (o.0, ground arith, o.2), has_byte-join a s ((c, t) ∷ bs))
]
