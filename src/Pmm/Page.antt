-- ===== src/Pmm/Page.antt =====
-- `pmm_alloc_page` and `pmm_free_page`: what they return, what they change, and their invariant.
use neodymium.Base.{
  ℕ, zero, suc, ◌+◌, ◌*◌, ◌/◌, ◌≤◌, ◌<◌, ◌≡◌, ◌≢◌, ◌↔◌, refl, true, false, ◌&&◌, arith, ltb, ◌==◌,
  if◌then◌else◌, Bool-cases, inl, inr,
}
use neodymium.Pmm.{
  Pmm, page_size, pmm_max_pages, is_used, clear_bit, take_page, give_page, alloc_loop, alloc_page,
  free_page,
}
use neodymium.Pmm.View.{is_used-set_bit, is_used-clear_bit}
use neodymium.Pmm.Count.{
  free_below, free_below-le, free_below-eq-zero, free_below-set_in, free_below-clear_in,
}

-- The count is exact, the bitmap covers the pages, and page 0 (the null address) is in use.
pub record IsValid (p : Pmm) : Type 0 where
  pub counted : p.free_count ≡ free_below p.bitmap p.total_pages
  pub small : p.total_pages ≤ pmm_max_pages
  pub zero_used : is_used p.bitmap 0 ≡ true

-- `addr` is the lowest free page of `p`, and `q` is `p` with that page taken.
pub record Allocated (p : Pmm) (addr : ℕ) (q : Pmm) : Type 0 where
  pub page : ℕ
  pub address : addr ≡ page * page_size
  pub in_range : page < p.total_pages
  pub was_free : is_used p.bitmap page ≡ false
  pub lowest : (j : ℕ) → j < page → is_used p.bitmap j ≡ true
  pub used : (j : ℕ) → is_used q.bitmap j ≡ (if page == j then true else is_used p.bitmap j)
  pub count : q.free_count + 1 ≡ p.free_count
  pub same_total : q.total_pages ≡ p.total_pages

pub take_page-IsValid :
    {p : Pmm} (i : ℕ)
    → IsValid p
    → i < p.total_pages
    → is_used p.bitmap i ≡ false
    → IsValid (take_page p i)
unfolding take_page
take_page-IsValid {p} i v h f = ground (
  arith,
  free_below-set_in p.bitmap i p.total_pages,
  free_below-le p.bitmap p.total_pages,
  is_used-set_bit p.bitmap i 0,
)

alloc_loop-Allocated :
    (n i : ℕ) {p : Pmm}
    → IsValid p
    → 0 < p.free_count
    → i + n ≡ p.total_pages
    → ((j : ℕ) → j < i → is_used p.bitmap j ≡ true)
    → let (addr, q) = alloc_loop n i p in Allocated p addr q × IsValid q
unfolding alloc_loop
alloc_loop-Allocated zero i {p} v pos e below = absurd (
    omega
      (arith, v.counted, free_below-eq-zero p.bitmap p.total_pages (λ j h. below j (omega arith))))
alloc_loop-Allocated (suc n) i {p} v pos e below = elim (Bool-cases (is_used p.bitmap i)) [
  | inl used ↦
      rw used (alloc_loop-Allocated n (i + 1) v pos (omega arith) (λ j h. ground (arith, below j)))
  | inr free ↦ rw free (
    record {
      page = i;
      address = omega (arith, v.small);
      in_range = omega arith;
      was_free = free;
      lowest = below;
      used = λ j. unfold take_page in is_used-set_bit p.bitmap i j;
      count =
          unfold take_page in
          omega (arith, v.counted, v.small, free_below-le p.bitmap p.total_pages);
      same_total = unfold take_page in refl;
    },
    take_page-IsValid i v (omega arith) free,
  )
]

-- While a page is free, `pmm_alloc_page` returns the lowest free page, marks it and nothing else,
-- lowers the count by one, and keeps the invariant.
pub alloc_page-Allocated :
    {p : Pmm}
    → IsValid p
    → 0 < p.free_count
    → let (addr, q) = alloc_page p in Allocated p addr q × IsValid q
unfolding alloc_page
alloc_page-Allocated {p} v pos =
    let some_free : (p.free_count == 0) ≡ false = ground arith in
    rw some_free
      (alloc_loop-Allocated p.total_pages 0 v pos (omega arith) (λ j h. absurd (omega arith)))

-- Page 0 is in use, so an allocated address is never null.
pub Allocated-ne-zero : {p q : Pmm} {addr : ℕ} → IsValid p → Allocated p addr q → addr ≢ 0
Allocated-ne-zero v a =
    λ e. let z : a.page ≡ 0 = omega (arith, a.address) in ground (arith, v.zero_used, a.was_free)

-- `pmm_alloc_page` fails exactly when no page below `total_pages` is free.
pub alloc_page-eq-zero_iff :
    {p : Pmm} → IsValid p → ((alloc_page p).0 ≡ 0) ↔ (free_below p.bitmap p.total_pages ≡ 0)
alloc_page-eq-zero_iff {p} v = (λ e. fails e, λ e. unfold alloc_page in ground (arith, v.counted))
  where
    fails : (alloc_page p).0 ≡ 0 → free_below p.bitmap p.total_pages ≡ 0
    fails e = elim (Bool-cases (p.free_count == 0)) [
      | inl none_free ↦ ground (arith, v.counted)
      | inr some_free ↦ absurd (Allocated-ne-zero v (alloc_page-Allocated v (ground arith)).0 e)
    ]

-- `pmm_free_page` of a page that is in use clears its mark and no other, and raises the count by
-- one; of any other address it changes nothing. The invariant is kept, if the page is not page 0.
pub free_page-IsValid :
    {p : Pmm} (addr : ℕ) → IsValid p → page_size ≤ addr → IsValid (free_page p addr)
unfolding free_page give_page
free_page-IsValid {p} addr v h = ground (
  arith,
  free_below-clear_in p.bitmap (addr / 4096) p.total_pages,
  free_below-le p.bitmap p.total_pages,
  free_below-le (clear_bit p.bitmap (addr / 4096)) p.total_pages,
  is_used-clear_bit p.bitmap (addr / 4096) 0,
)

pub is_used-free_page :
    (p : Pmm) (addr j : ℕ)
    → is_used (free_page p addr).bitmap j
      ≡ (if (addr / page_size == j) && ltb j p.total_pages then false else is_used p.bitmap j)
unfolding free_page give_page
is_used-free_page p addr j = ground (arith, is_used-clear_bit p.bitmap (addr / 4096) j)

-- A second `pmm_free_page` of the same address changes nothing: no count is given back twice.
pub free_page_twice : (p : Pmm) (addr : ℕ) → free_page (free_page p addr) addr ≡ free_page p addr
unfolding free_page give_page
free_page_twice p addr = ground (arith, is_used-clear_bit p.bitmap (addr / 4096) (addr / 4096))

-- Freeing the page that was just allocated restores the set of pages in use and the count.
pub free_page-alloc_page :
    {p : Pmm}
    → IsValid p
    → 0 < p.free_count
    → let (addr, q) = alloc_page p in
      ((j : ℕ) → is_used (free_page q addr).bitmap j ≡ is_used p.bitmap j)
      × ((free_page q addr).free_count ≡ p.free_count)
free_page-alloc_page {p} v pos = freed (alloc_page-Allocated v pos)
  where
    freed :
        {addr : ℕ} {q : Pmm}
        → Allocated p addr q × IsValid q
        → ((j : ℕ) → is_used (free_page q addr).bitmap j ≡ is_used p.bitmap j)
          × ((free_page q addr).free_count ≡ p.free_count)
    freed {addr} {q} (a, w) = (
      λ j. ground (
        arith,
        is_used-free_page q addr j,
        a.used j,
        a.was_free,
        a.in_range,
        a.address,
        a.same_total,
      ),
      unfold free_page give_page in
          ground (
            arith,
            a.used a.page,
            a.count,
            a.address,
            a.in_range,
            a.same_total,
            v.counted,
            v.small,
            free_below-le p.bitmap p.total_pages,
          ),
    )

alloc_loop_zero : (n : ℕ) (p : Pmm) → is_used p.bitmap 0 ≡ false → (alloc_loop n 0 p).0 ≡ 0
unfolding alloc_loop
alloc_loop_zero zero p f = refl
alloc_loop_zero (suc n) p f = rw f

-- Freeing the null address frees page 0: a page is counted free, and yet the next allocation
-- returns the null address.
pub alloc_page-free_null :
    {p : Pmm}
    → IsValid p
    → 0 < p.total_pages
    → let q = free_page p 0 in (q.free_count ≡ p.free_count + 1) × ((alloc_page q).0 ≡ 0)
alloc_page-free_null {p} v h = (
  unfold free_page give_page in
      ground (arith, v.zero_used, v.counted, v.small, free_below-le p.bitmap p.total_pages),
  unfold alloc_page in
      ground (
        arith,
        alloc_loop_zero (free_page p 0).total_pages (free_page p 0),
        is_used-free_page p 0 0,
      ),
)

pub alloc_page-pos : (p : Pmm) → (alloc_page p).0 ≢ 0 → 0 < p.free_count
unfolding alloc_page
alloc_page-pos p ne = elim (Bool-cases (p.free_count == 0)) [
  | inl none_free ↦ absurd (ne (rw none_free refl))
  | inr some_free ↦ ground (arith, some_free)
]
