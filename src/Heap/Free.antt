-- ===== src/Heap/Free.antt =====
-- `free`: the block goes back to its place in the list, and is merged with the blocks it touches.
use mathlib.Core.Path.{subst}
use neodymium.Base.{
  ℕ, zero, suc, ◌+◌, ◌≤◌, ◌<◌, ◌≡◌, refl, ◌∙◌, sym, bit_or, false, ◌||◌, [], ◌∷◌, some, arith, ltb,
  ◌==◌, Bool-cases, inl, inr, sub32, length,
}
use neodymium.Base.Bits.{bit_or_one}
use neodymium.Heap.{
  Heap, set_size, block_size, heap_min_block, find_place, join_next, join_prev, free,
}
use neodymium.Heap.Blocks.{
  Blocks, IsBlock, IsOrdered, join, give_back, give_back-IsOrdered, Apart, has_byte, in_block,
}
use neodymium.Heap.Chain.{Chain, Chain-frame}
use neodymium.Heap.Merge.{
  SameBelow, insert_at, join-touch-not, Behind, join_next-Behind, join_prev-join,
}

module _ {V : Type 0} where
  -- The loop from a block `q` on, and what follows it.
  find_place-give_back :
      (fuel : ℕ) (h : Heap V) (q t a s curr : ℕ) (bs : Blocks)
      → length bs < fuel
      → IsBlock q t
      → h.size q ≡ t + 1
      → h.next q ≡ curr
      → IsBlock a s
      → h.size a ≡ s + 1
      → q + t ≤ a
      → Apart a s bs
      → IsOrdered (q + t) bs
      → Chain h curr bs
      → (place : ℕ × ℕ) × (find_place fuel a q curr h ≡ some place)
        × Chain (insert_at a s place h) q (join q t (give_back a s bs))
        × SameBelow h q (insert_at a s place h)
  unfolding find_place give_back
  find_place-give_back zero h q t a s curr bs more bq eq en b e below apart o c =
      absurd (omega arith)
  find_place-give_back (suc fuel) h q t a s curr [] more bq eq en b e below apart o c =
      let out =
        join_prev-join h (join_next a s curr h) q t a s [] (join_next-Behind h a s curr [] b e tt c)
          bq eq below in
      ((q, curr), rw c refl, unfold join in out.0, out.1)
  find_place-give_back (suc fuel) h q t a s curr ((d, u) ∷ bs) more bq eq en b e below apart o c =
      let there : (d == 0) ≡ false = ground (arith, o.0.not_null) in
      elim (Bool-cases (ltb d a)) [
        | inl before ↦
            let (place, found, chain, same) =
              find_place-give_back fuel h d u a s (h.next d) bs (omega arith) o.0 c.1 refl b e
                (ground arith) apart.1 o.2 c.2 in
            let g = insert_at a s place h in
            let kept = same.0 q (omega (arith, o.1, bq.large)) in
            let linked : g.next q ≡ d = kept.1 ∙ en ∙ c.0 in
            (
              place,
              rw (c.0, there, before) found,
              rw (before, join-touch-not q t d u (give_back a s bs) o.1)
                  (refl, kept.0 ∙ eq, rw linked chain),
              (λ x lt. same.0 x (omega (arith, o.1)), same.1),
            )
        | inr behind ↦
            let out =
              join_prev-join h (join_next a s curr h) q t a s ((d, u) ∷ bs)
                (join_next-Behind h a s curr ((d, u) ∷ bs) b e
                  (o.0, ground (arith, o.0.large, b.large), o.2) c)
                bq eq below in
            ((q, curr), rw (c.0, there, behind), rw behind out.0, out.1)
      ]

  -- The free list of the heap is `bs`, in order of addresses.
  pub record IsHeap (h : Heap V) (bs : Blocks) : Type 0 where
    pub chain : Chain h h.heap_free bs
    pub ordered : IsOrdered 0 bs

  -- A new size of a block that is not free leaves the chain.
  Chain-set_size :
      (h : Heap V) (a s v p : ℕ) (bs : Blocks)
      → heap_min_block ≤ s
      → Apart a s bs
      → (lo : ℕ) → IsOrdered lo bs
      → Chain h p bs
      → Chain (set_size h a v) p bs
  Chain-set_size h a s v p [] large apart lo o c = c
  Chain-set_size h a s v p ((b, t) ∷ bs) large apart lo o c = (
    c.0,
    ground (arith, apart.0, o.0.large, c.1),
    Chain-set_size h a s v (h.next b) bs large apart.1 (b + t) o.2 c.2,
  )

  join_prev-head :
      (h k : Heap V) (a s : ℕ) (bs : Blocks)
      → Behind h a s bs k
      → let g = join_prev a 0 k in Chain g g.heap_free (join a s bs)
  unfolding join_prev
  join_prev-head h k a s bs b =
      let g : Heap V = record k { heap_free = a } in
      rw b.list (
        refl,
        b.header,
        Chain-frame k g (k.next a) (a + b.size) b.rest b.ordered (λ x lt. (refl, refl)) b.chain,
      )

  -- The loop from the list head on, and what follows it.
  find_place-head :
      (fuel : ℕ) (h : Heap V) (a s curr : ℕ) (bs : Blocks)
      → length bs < fuel
      → IsBlock a s
      → h.size a ≡ s + 1
      → Apart a s bs
      → IsOrdered 0 bs
      → Chain h curr bs
      → h.heap_free ≡ curr
      → (place : ℕ × ℕ) × (find_place fuel a 0 curr h ≡ some place)
        × (let g = insert_at a s place h in Chain g g.heap_free (give_back a s bs))
  unfolding find_place give_back
  find_place-head zero h a s curr bs more b e apart o c first = absurd (omega arith)
  find_place-head (suc fuel) h a s curr [] more b e apart o c first = (
    (0, curr),
    rw c,
    unfold join in
        join_prev-head h (join_next a s curr h) a s [] (join_next-Behind h a s curr [] b e tt c),
  )
  find_place-head (suc fuel) h a s curr ((d, u) ∷ bs) more b e apart o c first =
      let there : (d == 0) ≡ false = ground (arith, o.0.not_null) in
      elim (Bool-cases (ltb d a)) [
        | inl before ↦
            let (place, found, chain, same) =
              find_place-give_back fuel h d u a s (h.next d) bs (omega arith) o.0 c.1 refl b e
                (ground arith) apart.1 o.2 c.2 in
            let g = insert_at a s place h in
            (
              place,
              rw (c.0, there, before) found,
              rw before (
                  subst (λ p. Chain g p (join d u (give_back a s bs))) (sym (same.1 ∙ first ∙ c.0))
                    chain),
            )
        | inr behind ↦ (
          (0, curr),
          rw (c.0, there, behind),
          rw behind (
              join_prev-head h (join_next a s curr h) a s ((d, u) ∷ bs) (
                join_next-Behind h a s curr ((d, u) ∷ bs) b e
                  (o.0, ground (arith, o.0.large, b.large), o.2) c)),
        )
      ]

  free-eq :
      (fuel : ℕ) (h : Heap V) (a s : ℕ) (place : ℕ × ℕ)
      → sub32 (a + 8) 8 ≡ a
      → block_size h a ≡ s
      → bit_or s 1 ≡ s + 1
      → find_place fuel a 0 h.heap_free (set_size h a (s + 1)) ≡ some place
      → free fuel (a + 8) h ≡ some (insert_at a s place (set_size h a (s + 1)))
  unfolding free
  free-eq fuel h a s place start e odd found =
      let given : (a + 8 == 0) ≡ false = ground arith in
      rw (given, start, e, odd, found) (rw (start, e, odd))

  -- `free` of a block that is not free: with fuel beyond the number of free blocks it ends, and the
  -- free list is the old one with the block given back at its place and merged with the blocks that
  -- it touches; it is in order again, and the free bytes are the old ones and the block's.
  pub free-give_back :
      (fuel : ℕ) (h : Heap V) (a s : ℕ) (bs : Blocks)
      → length bs < fuel
      → IsHeap h bs
      → IsBlock a s
      → block_size h a ≡ s
      → Apart a s bs
      → (g : Heap V) × (free fuel (a + 8) h ≡ some g)
        × IsHeap g (give_back a s bs)
        × ((x : ℕ) → has_byte (give_back a s bs) x ≡ (in_block a s x || has_byte bs x))
  free-give_back fuel h a s bs more v b e apart =
      let start : sub32 (a + 8) 8 ≡ a = omega (arith, b.fits, b.large) in
      let odd : bit_or s 1 ≡ s + 1 = bit_or_one s (omega (arith, b.whole)) in
      let h1 : Heap V = set_size h a (s + 1) in
      let (place, found, chain) =
        find_place-head fuel h1 a s h.heap_free bs more b (ground arith) apart v.ordered
          (Chain-set_size h a s (s + 1) h.heap_free bs b.large apart 0 v.ordered v.chain) refl in
      let list = give_back-IsOrdered bs v.ordered b b.not_null apart in
      (
        insert_at a s place h1,
        free-eq fuel h a s place start e odd found,
        record { chain = chain; ordered = list.0 },
        list.1,
      )
