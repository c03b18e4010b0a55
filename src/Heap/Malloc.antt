-- ===== src/Heap/Malloc.antt =====
-- `malloc`: the rounding of a request, first fit on the free list, growth of the heap, and `free` of
-- what was just allocated.
use mathlib.Core.Path.{subst}
use neodymium.Base.{
  ℕ, ◌+◌, ◌-◌, ◌*◌, ◌/◌, ◌%◌, ◌^◌, ◌≤◌, ◌<◌, ◌≡◌, refl, ◌∙◌, bit_and, true, false, [], ◌∷◌, some,
  arith, ltb, leb, ◌==◌, Bool-cases, Option-cases, inl, inr, leb→le, u32, length,
}
use neodymium.Base.Bits.{bit_and_eights}
use neodymium.Heap.{
  Heap, head, load, needed_bytes, heap_min_block, heap_align, header_size, search_list, malloc,
  free, block_size,
}
use neodymium.Heap.Blocks.{
  Blocks, IsOrdered, Fit, Fits, first_fit, first_fit-Fits, join, give_back, Apart, has_byte,
  in_block,
}
use neodymium.Heap.Chain.{search_list-first_fit}
use neodymium.Heap.Free.{IsHeap, free-give_back}

-- A request below 2 ^ 32 - 15 bytes takes a whole number of 8-byte units, at least a block, that
-- holds the header and the request and wastes less than 8 bytes.
pub needed_bytes_lem :
    (size : ℕ)
    → 0 < size
    → size + 15 < 2 ^ 32
    → (needed_bytes size % heap_align ≡ 0)
      × (heap_min_block ≤ needed_bytes size)
      × (size + header_size ≤ needed_bytes size)
      × (needed_bytes size < size + header_size + 8)
unfolding needed_bytes
needed_bytes_lem size pos small =
    let round : bit_and (u32 (8 + size + 8 - 1)) 0xFFFFFFF8 ≡ (size + 15) / 8 * 8 =
      bit_and_eights (u32 (8 + size + 8 - 1)) (omega arith) ∙ omega arith in
    ground (arith, round)

-- A request of the largest 15 sizes wraps around: it takes the smallest block of all.
pub needed_bytes_wraps :
    (size : ℕ) → 2 ^ 32 ≤ size + 15 → size < 2 ^ 32 → needed_bytes size ≡ heap_min_block
unfolding needed_bytes
needed_bytes_wraps size big word =
    let low : u32 (8 + size + 8 - 1) < 15 = omega arith in
    let round : bit_and (u32 (8 + size + 8 - 1)) 0xFFFFFFF8 ≡ u32 (8 + size + 8 - 1) / 8 * 8 =
      bit_and_eights (u32 (8 + size + 8 - 1)) (omega arith) in
    ground (arith, round, low)

join-apart : (a s : ℕ) (bs : Blocks) → IsOrdered (a + s) bs → join a s bs ≡ (a, s) ∷ bs
unfolding join
join-apart a s [] o = refl
join-apart a s ((b, t) ∷ bs) o = ground (arith, o.1)

give_back-front : (a s : ℕ) (bs : Blocks) → IsOrdered (a + s) bs → give_back a s bs ≡ (a, s) ∷ bs
unfolding give_back
give_back-front a s [] o = refl
give_back-front a s ((b, t) ∷ bs) o =
    let behind : ltb b a ≡ false = ground (arith, o.1) in rw behind (join-apart a s ((b, t) ∷ bs) o)

give_back-behind :
    (b t a s : ℕ) (bs : Blocks)
    → ltb a b ≡ true
    → give_back b t ((a, s) ∷ bs) ≡ join a s (give_back b t bs)
unfolding give_back
give_back-behind b t a s bs e = rw e

give_back-split :
    (a n s : ℕ) (bs : Blocks) → n ≤ s → give_back a n ((a + n, s - n) ∷ bs) ≡ (a, s) ∷ bs
unfolding give_back join
give_back-split a n s bs h =
    let behind : ltb (a + n) a ≡ false = ground arith in
    let touch : (a + n == a + n) ≡ true = ground arith in
    let whole : n + (s - n) ≡ s = omega arith in rw (behind, touch, whole)

-- Giving back what first fit took restores the list.
pub give_back-first_fit :
    (n lo : ℕ) (bs : Blocks) (f : Fit)
    → IsOrdered lo bs
    → n % heap_align ≡ 0
    → heap_min_block ≤ n
    → first_fit n bs ≡ some f
    → give_back f.address f.size f.rest ≡ bs
unfolding first_fit
give_back-first_fit n lo [] f o al mn e = cc
give_back-first_fit n lo ((a, s) ∷ bs) f o al mn e = elim (Bool-cases (leb n s)) [
  | inl enough ↦ elim (Bool-cases (leb heap_min_block (s - n))) [
    | inl more ↦
        let same : ◌≡◌ {A = Fit} (record { address = a; size = n; rest = (a + n, s - n) ∷ bs }) f =
          ground arith in
        subst Restored same (give_back-split a n s bs (leb→le n s enough))
    | inr little ↦
        let same : ◌≡◌ {A = Fit} (record { address = a; size = s; rest = bs }) f = ground arith in
        subst Restored same (give_back-front a s bs o.2)
  ]
  | inr small ↦ elim (Option-cases (first_fit n bs)) [
    | inl nothing ↦ ground arith
    | inr (g, found) ↦
        let same : record g { rest = (a, s) ∷ g.rest } ≡ f = ground arith in
        let above : ltb a g.address ≡ true =
          ground (arith, (first_fit-Fits bs o.2 al mn found).above) in
        subst Restored same (
          give_back-behind g.address g.size a s g.rest above
          ∙ rw (give_back-first_fit n (a + s) bs g o.2 al mn found) (join-apart a s bs o.2))
  ]
]
  where
    Restored : Fit → Type 0
    Restored k = give_back k.address k.size k.rest ≡ (a, s) ∷ bs

Apart-Fits :
    (a s lo : ℕ) (bs : Blocks)
    → 0 < s
    → IsOrdered lo bs
    → ((x : ℕ) → in_block a s x ≡ true → has_byte bs x ≡ false)
    → Apart a s bs
Apart-Fits a s lo [] pos o h = tt
Apart-Fits a s lo ((b, t) ∷ bs) pos o h = (
  ground (arith, h a, h b, o.0.large),
  Apart-Fits a s (b + t) bs pos o.2 (λ x i. ground (arith, h x)),
)

module _ {V : Type 0} (map_page : V → ℕ → ℕ → ℕ × V) where
  malloc-found :
      (fuel size : ℕ) (h : Heap V) (out : ℕ × Heap V)
      → 0 < size
      → search_list fuel (needed_bytes size) head h ≡ some (some out)
      → malloc map_page fuel size h ≡ some out
  unfolding malloc
  malloc-found fuel size h out pos e =
      let asked : (size == 0) ≡ false = ground arith in rw (asked, e)

  -- While a free block is large enough, `malloc` takes the first one: it returns the address behind
  -- its header, which holds its size; the block was free and is large enough, what stays free is
  -- the rest, and no header outside the free bytes changes.
  pub malloc-first_fit :
      (fuel size : ℕ) (h : Heap V) (bs : Blocks) (f : Fit)
      → length bs < fuel
      → 0 < size
      → size + 15 < 2 ^ 32
      → IsHeap h bs
      → first_fit (needed_bytes size) bs ≡ some f
      → (g : Heap V) × (malloc map_page fuel size h ≡ some (f.address + 8, g))
        × IsHeap g f.rest
        × (block_size g f.address ≡ f.size)
        × ((x : ℕ) → has_byte bs x ≡ false → g.size x ≡ h.size x)
        × Fits (size + header_size) 0 bs f
  malloc-first_fit fuel size h bs f more pos small v found =
      let n = needed_bytes_lem size pos small in
      let t = first_fit-Fits bs v.ordered n.0 n.1 found in
      elim (search_list-first_fit fuel (needed_bytes size) 0 bs head h more n.0 n.1 v.ordered tt
        (unfold load in v.chain)) [
          | inl (nothing, ends) ↦ cc
          | inr (k, g, found', ends, taken) ↦
              let same : k ≡ f = ground arith in
              subst
                (λ (f : Fit).
                  Fits (needed_bytes size) 0 bs f
                  → (g : Heap V) × (malloc map_page fuel size h ≡ some (f.address + 8, g))
                    × IsHeap g f.rest
                    × (block_size g f.address ≡ f.size)
                    × ((x : ℕ) → has_byte bs x ≡ false → g.size x ≡ h.size x)
                    × Fits (size + header_size) 0 bs f)
                same
                (λ t. (
                  g,
                  malloc-found fuel size h (k.address + 8, g) pos ends,
                  record { chain = unfold load in taken.chain; ordered = t.ordered },
                  taken.header,
                  taken.same_size,
                  record {
                    block = t.block;
                    enough = omega (arith, t.enough, n.2);
                    above = t.above;
                    was_free = t.was_free;
                    bytes = t.bytes;
                    ordered = t.ordered;
                  },
                ))
                t
        ]

  -- `free` of what `malloc` just took from the free list succeeds, and restores the list of free
  -- blocks exactly.
  pub free-malloc :
      (fuel size : ℕ) (h : Heap V) (bs : Blocks) (f : Fit)
      → length bs < fuel
      → length f.rest < fuel
      → 0 < size
      → size + 15 < 2 ^ 32
      → IsHeap h bs
      → first_fit (needed_bytes size) bs ≡ some f
      → (g g' : Heap V) × (malloc map_page fuel size h ≡ some (f.address + 8, g))
        × (free fuel (f.address + 8) g ≡ some g')
        × IsHeap g' bs
  free-malloc fuel size h bs f more more' pos small v found =
      let (g, e, w, header, same, t) = malloc-first_fit fuel size h bs f more pos small v found in
      let n = needed_bytes_lem size pos small in
      let apart =
        Apart-Fits f.address f.size 0 f.rest (omega (arith, t.block.large)) w.ordered
          (λ x i. ground (arith, t.bytes x)) in
      let (g', e', w', bytes) =
        free-give_back fuel g f.address f.size f.rest more' w t.block header apart in
      (
        g,
        g',
        e,
        e',
        subst (IsHeap g') (give_back-first_fit (needed_bytes size) 0 bs f v.ordered n.0 n.1 found)
            w',
      )
