-- ===== src/Heap/Merge.antt =====
-- The two merges of `free`: with the block behind, and with the one before.
use mathlib.Core.Path.{subst}
use neodymium.Base.{
  ℕ, ◌+◌, ◌-◌, ◌≤◌, ◌<◌, ◌≡◌, refl, ◌∙◌, bit_or, true, false, [], ◌∷◌, arith, ◌==◌, Bool-cases, inl,
  inr, add32,
}
use neodymium.Base.Bits.{bit_or_one}
use neodymium.Heap.{Heap, set_size, set_next, block_size, join_next, join_prev}
use neodymium.Heap.Blocks.{Blocks, IsBlock, IsOrdered, join, IsOrdered-weaken}
use neodymium.Heap.Chain.{Chain, Chain-frame, block_size-eq}

pub join-touch-not :
    (q t c u : ℕ) (bs : Blocks) → q + t < c → join q t (join c u bs) ≡ (q, t) ∷ join c u bs
unfolding join
join-touch-not q t c u [] lt = ground arith
join-touch-not q t c u ((d, v) ∷ bs) lt = ground arith

module _ {V : Type 0} where
  -- The merge behind: the list from the block on, with the size that the block ends up with.
  pub record Behind (h : Heap V) (a s : ℕ) (bs : Blocks) (g : Heap V) : Type 0 where
    pub size : ℕ
    pub rest : Blocks
    pub list : join a s bs ≡ (a, size) ∷ rest
    pub block : IsBlock a size
    pub ordered : IsOrdered (a + size) rest
    pub header : g.size a ≡ size + 1
    pub chain : Chain g (g.next a) rest
    pub same : (x : ℕ) → x < a → (g.size x ≡ h.size x) × (g.next x ≡ h.next x)
    pub same_free : g.heap_free ≡ h.heap_free

  pub join_next-Behind :
      (h : Heap V) (a s curr : ℕ) (bs : Blocks)
      → IsBlock a s
      → h.size a ≡ s + 1
      → IsOrdered (a + s - 1) bs
      → Chain h curr bs
      → Behind h a s bs (join_next a s curr h)
  unfolding join_next join
  join_next-Behind h a s curr [] b e o c = rw c (record {
    size = s;
    rest = [];
    list = refl;
    block = b;
    ordered = tt;
    header = e;
    chain = ground arith;
    same = λ x lt. (refl, ground arith);
    same_free = refl;
  })
  join_next-Behind h a s curr ((c, t) ∷ bs) b e o ch =
      let far : (c == 0) ≡ false = ground (arith, o.0.not_null) in
      elim (Bool-cases (add32 a s == c)) [
        | inl touch ↦
            let near : (a + s == c) ≡ true = ground (arith, o.0.not_null, b.fits) in
            let sum : add32 s t ≡ s + t = ground (arith, o.0.fits, b.not_null) in
            let sizes : bit_or (add32 s t) 1 ≡ s + t + 1 =
              rw sum (bit_or_one (s + t) (omega (arith, b.whole, o.0.whole))) in
            let g : Heap V = set_next (set_size h a (s + t + 1)) a (h.next c) in
            rw (ch.0, far, touch, block_size-eq h c t o.0 ch.1, sizes)
              (record {
                size = s + t;
                rest = bs;
                list = rw near;
                block = record {
                  aligned = b.aligned;
                  whole = omega (arith, b.whole, o.0.whole);
                  not_null = b.not_null;
                  large = omega (arith, b.large);
                  fits = ground (arith, o.0.fits);
                };
                ordered = IsOrdered-weaken bs o.2 (ground arith);
                header = ground arith;
                chain =
                    subst (λ p. Chain g p bs) (ground arith)
                      (Chain-frame h g (h.next c) (c + t) bs o.2
                        (λ x lt. (ground (arith, b.large), ground (arith, b.large))) ch.2);
                same = λ x lt. (ground arith, ground arith);
                same_free = refl;
              })
        | inr apart ↦
            let not_near : (a + s == c) ≡ false = ground (arith, o.0.fits, o.0.large) in
            let g : Heap V = set_next h a c in
            rw (ch.0, far, apart)
              (record {
                size = s;
                rest = (c, t) ∷ bs;
                list = rw not_near;
                block = b;
                ordered = (o.0, ground (arith, o.1), o.2);
                header = e;
                chain = (
                  ground arith,
                  ch.1,
                  subst (λ p. Chain g p bs) (ground (arith, o.1, b.large))
                      (Chain-frame h g (h.next c) (c + t) bs o.2
                        (λ x lt. (refl, ground (arith, o.1, b.large))) ch.2),
                );
                same = λ x lt. (refl, ground arith);
                same_free = refl;
              })
      ]

  -- What the heap keeps below the address `q`.
  abbrev pub SameBelow : Heap V → ℕ → Heap V → Type 0
  SameBelow h q g =
      ((x : ℕ) → x < q → (g.size x ≡ h.size x) × (g.next x ≡ h.next x))
      × (g.heap_free ≡ h.heap_free)

  pub join_prev-join :
      (h k : Heap V) (q t a s : ℕ) (bs : Blocks)
      → Behind h a s bs k
      → IsBlock q t
      → h.size q ≡ t + 1
      → q + t ≤ a
      → let g = join_prev a q k in Chain g q (join q t (join a s bs)) × SameBelow h q g
  unfolding join_prev join
  join_prev-join h k q t a s bs b bq e below =
      let not_null : (q == 0) ≡ false = ground (arith, bq.not_null) in
      let header : k.size q ≡ t + 1 = (b.same q (omega (arith, bq.large))).0 ∙ e in
      let size_q : block_size (set_next k q a) q ≡ t = block_size-eq k q t bq header in
      let size_a : block_size (set_next k q a) a ≡ b.size =
        block_size-eq k a b.size b.block b.header in
      elim (Bool-cases (add32 q t == a)) [
        | inl touch ↦
            let near : (q + t == a) ≡ true = ground (arith, b.block.fits, b.block.large) in
            let sum : add32 t b.size ≡ t + b.size = ground (arith, b.block.fits, bq.not_null) in
            let sizes : bit_or (add32 t b.size) 1 ≡ t + b.size + 1 =
              rw sum (bit_or_one (t + b.size) (omega (arith, bq.whole, b.block.whole))) in
            let g : Heap V =
              set_next (set_size (set_next k q a) q (t + b.size + 1)) q ((set_next k q a).next a) in
            rw (not_null, size_q, touch, size_a, sizes, b.list, near)
              (
                (
                  refl,
                  ground arith,
                  subst (λ p. Chain g p b.rest) (ground (arith, bq.large))
                      (Chain-frame k g (k.next a) (a + b.size) b.rest b.ordered
                        (λ x lt. (ground (arith, bq.large), ground (arith, bq.large))) b.chain),
                ),
                (
                  λ x lt. (ground (arith, b.same x, bq.large), ground (arith, b.same x, bq.large)),
                  b.same_free,
                ),
              )
        | inr apart ↦
            let not_near : (q + t == a) ≡ false = ground (arith, b.block.fits, b.block.large) in
            let g : Heap V = set_next k q a in
            rw (not_null, size_q, apart, b.list, not_near)
              (
                (
                  refl,
                  header,
                  (
                    ground arith,
                    b.header,
                    subst (λ p. Chain g p b.rest) (ground (arith, bq.large))
                        (Chain-frame k g (k.next a) (a + b.size) b.rest b.ordered
                          (λ x lt. (refl, ground (arith, bq.large))) b.chain),
                  ),
                ),
                (
                  λ x lt.
                      ((b.same x (omega (arith, bq.large))).0, ground (arith, b.same x, bq.large)),
                  b.same_free,
                ),
              )
      ]

  -- `free` behind the loop, for the place that the loop finds.
  abbrev pub insert_at : ℕ → ℕ → ℕ × ℕ → Heap V → Heap V
  insert_at a s (prev, curr) h = join_prev a prev (join_next a s curr h)
