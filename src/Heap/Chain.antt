-- ===== src/Heap/Chain.antt =====
-- The list in memory: the blocks that the `next` fields lead through, and the first loop of
-- `malloc` as first fit on them.
use mathlib.Core.Path.{subst}
use neodymium.Base.{
  ℕ, zero, suc, ◌+◌, ◌-◌, ◌%◌, ◌≤◌, ◌<◌, ◌≡◌, ◌⊎◌, refl, ◌∙◌, ap, bit_and, bit_or, Bool, true,
  false, [], ◌∷◌, none, some, arith, leb, ◌==◌, Bool-cases, inl, inr, leb→le, add32, sub32, length,
}
use neodymium.Base.Bits.{bit_and_even, bit_or_one}
use neodymium.Heap.{
  Heap, Link, head, next_of, load, store, set_size, set_next, split, search_list, block_size,
  heap_min_block, heap_align,
}
use neodymium.Heap.Blocks.{Blocks, IsBlock, IsOrdered, Fit, first_fit, has_byte, has_byte-above}

-- The link stands in front of every block from `lo` on.
abbrev pub Before : ℕ → Link → Type 0
Before lo head = Unit {0}
Before lo (next_of q) = q ≤ lo

abbrev is_link : Link → ℕ → Bool
is_link head x = false
is_link (next_of q) x = q == x

abbrev is_head : Link → Bool
is_head head = true
is_head (next_of q) = false

Before-not-link : (pp : Link) (lo x : ℕ) → Before lo pp → lo < x → is_link pp x ≡ false
Before-not-link head lo x b h = refl
Before-not-link (next_of q) lo x b h = ground arith

module _ {V : Type 0} where
  -- From `p` the `next` fields lead through the free blocks `bs` to null.
  abbrev pub Chain : Heap V → ℕ → Blocks → Type 0
  Chain h p [] = p ≡ 0
  Chain h p ((a, s) ∷ bs) = (p ≡ a) × (h.size a ≡ s + 1) × Chain h (h.next a) bs

  -- A chain survives any change below its blocks.
  pub Chain-frame :
      (h g : Heap V) (p lo : ℕ) (bs : Blocks)
      → IsOrdered lo bs
      → ((x : ℕ) → lo < x → (g.size x ≡ h.size x) × (g.next x ≡ h.next x))
      → Chain h p bs
      → Chain g p bs
  Chain-frame h g p lo [] o same c = c
  Chain-frame h g p lo ((a, s) ∷ bs) o same c =
      let here = same a o.1 in
      (
        c.0,
        here.0 ∙ c.1,
        rw here.1
            (Chain-frame h g (h.next a) (a + s) bs o.2 (λ x lt. same x (omega (arith, o.1))) c.2),
      )

  -- What taking the fit `f` out of the blocks `bs` behind `pp` makes of the heap: the rest is
  -- linked in, the header of the block taken has its size, and outside the free bytes only the
  -- link itself changes.
  pub record Taken (h : Heap V) (bs : Blocks) (pp : Link) (f : Fit) (g : Heap V) : Type 0 where
    pub chain : Chain g (load g pp) f.rest
    pub header : block_size g f.address ≡ f.size
    pub same_size : (x : ℕ) → has_byte bs x ≡ false → g.size x ≡ h.size x
    pub same_next : (x : ℕ) → has_byte bs x ≡ false → is_link pp x ≡ false → g.next x ≡ h.next x
    pub same_free : is_head pp ≡ false → g.heap_free ≡ h.heap_free
    pub same_top : g.heap_top ≡ h.heap_top
    pub same_vm : g.vm ≡ h.vm

  load-store : (h : Heap V) (pp : Link) (b : ℕ) → load (store h pp b) pp ≡ b
  unfolding load store
  load-store h head b = refl
  load-store h (next_of a) b = ground arith

  store_frame :
      (h : Heap V) (pp : Link) (b : ℕ)
      → let g = store h pp b in
        (g.size ≡ h.size)
        × (g.heap_top ≡ h.heap_top)
        × (g.vm ≡ h.vm)
        × (is_head pp ≡ false → g.heap_free ≡ h.heap_free)
        × ((x : ℕ) → is_link pp x ≡ false → g.next x ≡ h.next x)
  unfolding store
  store_frame h head b = (refl, refl, refl, λ e. cc, λ x e. refl)
  store_frame h (next_of a) b = (refl, refl, refl, λ e. refl, λ x e. ground arith)

  pub block_size-eq : (h : Heap V) (a s : ℕ) → IsBlock a s → h.size a ≡ s + 1 → block_size h a ≡ s
  block_size-eq h a s b e =
      rw e
        (bit_and_even (s + 1) (omega (arith, b.fits, b.not_null, b.whole)) ∙ omega (arith, b.whole))

  module _ {h : Heap V} {n lo a s : ℕ} {bs : Blocks} (pp : Link) (o : IsOrdered lo ((a, s) ∷ bs))
      (below : Before lo pp) (c : Chain h (load h pp) ((a, s) ∷ bs)) (fit : n ≤ s) where
    split-front :
        n % heap_align ≡ 0
        → heap_min_block ≤ n
        → leb heap_min_block (s - n) ≡ true
        → let f : Fit = record { address = a; size = n; rest = (a + n, s - n) ∷ bs } in
          let (ptr, g) = split n a (s - n) pp h in (ptr ≡ a + 8) × Taken h ((a, s) ∷ bs) pp f g
    unfolding split
    split-front al mn more =
        let room : heap_min_block ≤ s - n = leb→le heap_min_block (s - n) more in
        let sum : add32 a n ≡ a + n = omega (arith, o.0.fits) in
        let even : bit_and n 0xFFFFFFFE ≡ n =
          bit_and_even n (omega (arith, o.0.fits, o.0.not_null)) ∙ omega arith in
        let odd : bit_or (s - n) 1 ≡ s - n + 1 = bit_or_one (s - n) (omega (arith, o.0.whole)) in
        let k : Heap V =
          set_next (set_size (set_size h a n) (a + n) (s - n + 1)) (a + n) (h.next a) in
        let w = store_frame k pp (a + n) in
        let rest_not_link : is_link pp (a + n) ≡ false =
          Before-not-link pp lo (a + n) below (omega (arith, o.1)) in
        rw (more, sum, even, odd)
          (
            omega (arith, o.0.fits),
            record {
              chain = (
                load-store k pp (a + n),
                ap (λ f. f (a + n)) w.0 ∙ ground arith,
                rw (w.4 (a + n) rest_not_link) (
                    subst (λ t. Chain (store k pp (a + n)) t bs) (ground arith)
                      (Chain-frame h (store k pp (a + n)) (h.next a) (a + s) bs o.2
                        (λ x lt. (
                          ap (λ f. f x) w.0 ∙ ground arith,
                          w.4 x (Before-not-link pp lo x below (omega (arith, o.1))) ∙ ground arith,
                        ))
                        c.2)),
              );
              header = ap (λ f. bit_and (f a) 0xFFFFFFFE) w.0 ∙ ground (arith, even);
              same_size = λ x out. ap (λ f. f x) w.0 ∙ ground arith;
              same_next = λ x out nl. w.4 x nl ∙ ground arith;
              same_free = w.3;
              same_top = w.1;
              same_vm = w.2;
            },
          )

    split-whole :
        leb heap_min_block (s - n) ≡ false
        → let f : Fit = record { address = a; size = s; rest = bs } in
          let (ptr, g) = split n a (s - n) pp h in (ptr ≡ a + 8) × Taken h ((a, s) ∷ bs) pp f g
    unfolding split
    split-whole little =
        let w = store_frame h pp (h.next a) in
        rw little (
          omega (arith, o.0.fits, o.0.large),
          record {
            chain = rw (load-store h pp (h.next a)) (
                Chain-frame h (store h pp (h.next a)) (h.next a) (a + s) bs o.2
                  (λ x lt.
                    (ap (λ f. f x) w.0, w.4 x (Before-not-link pp lo x below (omega (arith, o.1)))))
                  c.2);
            header = ap (λ f. bit_and (f a) 0xFFFFFFFE) w.0 ∙ block_size-eq h a s o.0 c.1;
            same_size = λ x out. ap (λ f. f x) w.0;
            same_next = λ x out nl. w.4 x nl;
            same_free = w.3;
            same_top = w.1;
            same_vm = w.2;
          },
        )

  load-Taken :
      {h g : Heap V} {lo a : ℕ} {bs : Blocks} {f : Fit} (s : ℕ) (pp : Link)
      → lo < a
      → Before lo pp
      → ((x : ℕ) → has_byte bs x ≡ true → a + s < x)
      → Taken h bs (next_of a) f g
      → load g pp ≡ load h pp
  unfolding load
  load-Taken s head first below after t = t.same_free refl
  load-Taken s (next_of q) first below after t =
      t.same_next q (ground (arith, after q)) (ground arith)

  -- Behind a block that stays, the same step.
  later-Taken :
      {h g : Heap V} {lo a s : ℕ} {bs : Blocks} {f : Fit} (pp : Link)
      → IsBlock a s
      → lo < a
      → Before lo pp
      → Chain h (load h pp) ((a, s) ∷ bs)
      → ((x : ℕ) → has_byte bs x ≡ true → a + s < x)
      → Taken h bs (next_of a) f g
      → Taken h ((a, s) ∷ bs) pp (record f { rest = (a, s) ∷ f.rest }) g
  later-Taken {h} {g} {lo} {a} {s} {bs} {f} pp b first below c after t = record {
    chain = (
      load-Taken s pp first below after t ∙ c.0,
      t.same_size a (ground (arith, after a, b.large)) ∙ c.1,
      unfold load in t.chain,
    );
    header = t.header;
    same_size = λ x out. t.same_size x (ground arith);
    same_next = λ x out nl. t.same_next x (ground arith) (ground (arith, b.large));
    same_free = λ e. t.same_free refl;
    same_top = t.same_top;
    same_vm = t.same_vm;
  }

  module _ (h : Heap V) (n lo a s : ℕ) (bs : Blocks) (pp : Link) (fuel : ℕ)
      (o : IsOrdered lo ((a, s) ∷ bs)) (c : Chain h (load h pp) ((a, s) ∷ bs)) where
    here_not_null : (a == 0) ≡ false
    here_not_null = ground (arith, o.0.not_null)

    search_list-hit :
        leb n s ≡ true → search_list (suc fuel) n pp h ≡ some (some (split n a (s - n) pp h))
    unfolding search_list
    search_list-hit e =
        let sub : sub32 s n ≡ s - n = omega (arith, leb→le n s e, o.0.fits, o.0.not_null) in
        rw (c.0, here_not_null, block_size-eq h a s o.0 c.1, e, sub)

    search_list-miss :
        leb n s ≡ false → search_list (suc fuel) n pp h ≡ search_list fuel n (next_of a) h
    unfolding search_list
    search_list-miss e = rw (c.0, here_not_null, block_size-eq h a s o.0 c.1, e)

  -- The first loop of `malloc` is first fit: with fuel beyond the number of blocks it ends, and
  -- returns the address behind the header of the block that first fit takes.
  pub search_list-first_fit :
      (fuel n lo : ℕ) (bs : Blocks) (pp : Link) (h : Heap V)
      → length bs < fuel
      → n % heap_align ≡ 0
      → heap_min_block ≤ n
      → IsOrdered lo bs
      → Before lo pp
      → Chain h (load h pp) bs
      → ((first_fit n bs ≡ none) × (search_list fuel n pp h ≡ some none))
        ⊎ ((f : Fit) × (g : Heap V) × (first_fit n bs ≡ some f)
            × (search_list fuel n pp h ≡ some (some (f.address + 8, g)))
            × Taken h bs pp f g)
  unfolding search_list first_fit
  search_list-first_fit zero n lo bs pp h fuel al mn o below c = absurd (omega arith)
  search_list-first_fit (suc fuel) n lo [] pp h more al mn o below c = inl (refl, rw c refl)
  search_list-first_fit (suc fuel) n lo ((a, s) ∷ bs) pp h more al mn o below c =
      elim (Bool-cases (leb n s)) [
        | inl hit ↦ elim (Bool-cases (leb heap_min_block (s - n))) [
          | inl room ↦
              let out = split-front pp o below c (leb→le n s hit) al mn room in
              inr (
                record { address = a; size = n; rest = (a + n, s - n) ∷ bs },
                (split n a (s - n) pp h).1,
                rw (hit, room),
                search_list-hit h n lo a s bs pp fuel o c hit ∙ rw (← out.0),
                out.1,
              )
          | inr little ↦
              let out = split-whole pp o below c (leb→le n s hit) little in
              inr (
                record { address = a; size = s; rest = bs },
                (split n a (s - n) pp h).1,
                rw (hit, little),
                search_list-hit h n lo a s bs pp fuel o c hit ∙ rw (← out.0),
                out.1,
              )
        ]
        | inr miss ↦
            elim (search_list-first_fit fuel n (a + s) bs (next_of a) h (omega arith) al mn o.2
              (omega arith) (unfold load in c.2)) [
                | inl (nothing, ends) ↦
                    inl (rw (miss, nothing), search_list-miss h n lo a s bs pp fuel o c miss ∙ ends)
                | inr (f, g, found, ends, t) ↦ inr (
                  record f { rest = (a, s) ∷ f.rest },
                  g,
                  rw (miss, found),
                  search_list-miss h n lo a s bs pp fuel o c miss ∙ ends,
                  later-Taken pp o.0 o.1 below c (λ x. has_byte-above bs x o.2) t,
                )
              ]
      ]
