-- ===== src/Boot/Tags.antt =====
-- The walk over the tags ends, and reads each of them once in their order.
use mathlib.Core.Path.{subst}
use neodymium.Base.{
  ℕ, zero, suc, ◌+◌, ◌*◌, ◌/◌, ◌%◌, ◌^◌, ◌<◌, ◌≤◌, ◌≡◌, ◌≢◌, ◌-◌, sym, refl, ◌⊎◌, inl, inr, bit_and,
  Bool, true, false, Option, some, List, [], ◌∷◌, length, ltb, ◌==◌, ==_ne, lt→ltb, if◌then◌else◌,
  add32, load32, arith,
}
use neodymium.Base.Bits.{bit_and_eights}
use neodymium.Boot.{Boot, tag_type, tag_size, read_tag, next_pos, walk_tags, start}

-- The tags from `pos` on, by their addresses, up to the end tag or the end of the record.
abbrev AreTags : (m : ℕ → ℕ) (info pos : ℕ) → List ℕ → Type 0
AreTags m info pos [] = (load32 m info ≤ pos) ⊎ (tag_type m (info + pos) ≡ 0)
AreTags m info pos (t ∷ ts) =
    (t ≡ info + pos)
    × (pos < load32 m info)
    × (tag_type m t ≢ 0)
    × AreTags m info (next_pos m t pos) ts

abbrev pub read_tags : (ℕ → ℕ) → Boot → List ℕ → Boot
read_tags m s [] = s
read_tags m s (t ∷ ts) = read_tags m (read_tag m s t) ts

walk_tags-read_tags :
    (fuel : ℕ) (m : ℕ → ℕ) (info pos : ℕ) (s : Boot) (ts : List ℕ)
    → AreTags m info pos ts
    → length ts < fuel
    → walk_tags fuel m info pos s ≡ some (read_tags m s ts)
unfolding walk_tags
walk_tags-read_tags zero m info pos s ts a h = absurd (omega arith)
walk_tags-read_tags (suc n) m info pos s [] (inl e) h = ground (arith, e)
walk_tags-read_tags (suc n) m info pos s [] (inr e) h = ground (arith, e)
walk_tags-read_tags (suc n) m info pos s (t ∷ ts) (e, b, k, rest) h =
    let more : ltb pos (load32 m info) ≡ true = lt→ltb pos (load32 m info) b in
    let other : (tag_type m (info + pos) == 0) ≡ false =
      ==_ne (tag_type m (info + pos)) 0 (subst (λ a. tag_type m a ≢ 0) e k) in
    let onward =
      walk_tags-read_tags n m info (next_pos m t pos) (read_tag m s t) ts rest (omega (arith, h)) in
    step (some s) (ltb pos (load32 m info)) (tag_type m (info + pos) == 0) more other (
      subst
        (λ a.
          walk_tags n m info (next_pos m a pos) (read_tag m s a)
          ≡ some (read_tags m (read_tag m s t) ts))
        e onward)
  where
    step :
        (x : Option Boot) (b c : Bool) {y z : Option Boot}
        → b ≡ true
        → c ≡ false
        → y ≡ z
        → (if b then (if c then x else y) else x) ≡ z
    step x true false p q e = e
    step x true true p q e = ground (arith, q)
    step x false c p q e = ground (arith, p)

-- What the boot loader promises: the tags of the record, by their addresses, from offset `pos` on, up to
-- the end tag or the end of the record. A tag's size is not 0 and below 2 ^ 31, and the next tag starts
-- at the first multiple of 8 behind its bytes. What lies inside a tag is free.
abbrev pub IsLaidOut : (m : ℕ → ℕ) (info pos : ℕ) → List ℕ → Type 0
IsLaidOut m info pos [] = (load32 m info ≤ pos) ⊎ (tag_type m (info + pos) ≡ 0)
IsLaidOut m info pos (t ∷ ts) =
    (t ≡ info + pos)
    × (pos < load32 m info)
    × (tag_type m t ≢ 0)
    × (1 ≤ tag_size m t)
    × (tag_size m t < 2 ^ 31)
    × ((next : ℕ) × (next % 8 ≡ 0)
        × (pos + tag_size m t ≤ next)
        × (next < pos + tag_size m t + 8)
        × IsLaidOut m info next ts)

next_pos_lem :
    (m : ℕ → ℕ) (tag pos next : ℕ)
    → tag_size m tag < 2 ^ 31
    → pos < 2 ^ 31
    → pos % 8 ≡ 0
    → next % 8 ≡ 0
    → pos + tag_size m tag ≤ next
    → next < pos + tag_size m tag + 8
    → next_pos m tag pos ≡ next
unfolding next_pos
next_pos_lem m tag pos next hi h even next_even far near =
    let size = tag_size m tag in
    let mask : bit_and (add32 size 7) 0xFFFFFFF8 ≡ add32 size 7 / 8 * 8 =
      bit_and_eights (add32 size 7) (omega arith) in
    omega (arith, mask, hi, h, even, next_even, far, near)

-- The tags of a record, as the walk comes to them, and their number.
IsLaidOut-AreTags :
    (m : ℕ → ℕ) (info pos : ℕ) (ts : List ℕ)
    → load32 m info < 2 ^ 31
    → pos % 8 ≡ 0
    → IsLaidOut m info pos ts
    → AreTags m info pos ts × (length ts * 8 ≤ load32 m info + 7 - pos)
IsLaidOut-AreTags m info pos [] total even end = (end, omega arith)
IsLaidOut-AreTags m info pos (t ∷ ts) total even
      (e, b, k, lo, hi, (next, next_even, far, near, l)) =
    let at = next_pos_lem m t pos next hi (omega (arith, b, total)) even next_even far near in
    let (are, few) = IsLaidOut-AreTags m info next ts total next_even l in
    (
      (e, b, k, subst (λ p. AreTags m info p ts) (sym at) are),
      omega (arith, few, far, lo, even, next_even, b),
    )

-- Let a record of less than 2 ^ 31 bytes hold the tags `ts`, whose sizes are not 0. The walk over the
-- tags ends within an eighth of the size of the record, and it reads each of them once, in the order
-- in which they lie in memory, up to the end tag or the end of the record.
pub start-read_tags :
    (fuel : ℕ) (m : ℕ → ℕ) (info : ℕ) (s : Boot) (ts : List ℕ)
    → load32 m info < 2 ^ 31
    → IsLaidOut m info 8 ts
    → load32 m info / 8 < fuel
    → start fuel m info s ≡ some (read_tags m (record s { mod_count = 0 }) ts)
unfolding start
start-read_tags fuel m info s ts total l h =
    let (are, few) = IsLaidOut-AreTags m info 8 ts total refl l in
    walk_tags-read_tags fuel m info 8 (record s { mod_count = 0 }) ts are (omega (arith, few, h))
