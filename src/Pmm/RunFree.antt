-- ===== src/Pmm/RunFree.antt =====
-- `pmm_free_pages`: giving back a run of adjacent pages.
use neodymium.Base.{
  ℕ, zero, suc, ◌+◌, ◌/◌, ◌^◌, ◌≤◌, ◌<◌, ◌≡◌, refl, ap, ◌∙◌, Bool, false, ◌&&◌, arith, ltb, leb,
  ◌==◌, if◌then◌else◌, add32,
}
use neodymium.Pmm.{Pmm, page_size, is_used, clear_bit, give_page, free_at, free_run, free_pages}
use neodymium.Pmm.View.{is_used-clear_bit}
use neodymium.Pmm.Count.{free_below, free_below_ext, free_below-le, free_below-clear_in}
use neodymium.Pmm.Page.{IsValid}
use neodymium.Pmm.Run.{RunAllocated}

abbrev pub in_run : ℕ → ℕ → ℕ → Bool
in_run i n j = leb i j && ltb j (i + n)

is_used-free_at :
    (p : Pmm) (page j : ℕ)
    → is_used (free_at p page).bitmap j
      ≡ (if (page == j) && ltb j p.total_pages then false else is_used p.bitmap j)
unfolding free_at give_page
is_used-free_at p page j = ground (arith, is_used-clear_bit p.bitmap page j)

total_pages-free_at : (p : Pmm) (page : ℕ) → (free_at p page).total_pages ≡ p.total_pages
unfolding free_at give_page
total_pages-free_at p page = ground arith

free_at-IsValid : {p : Pmm} (page : ℕ) → IsValid p → 0 < page → IsValid (free_at p page)
unfolding free_at give_page
free_at-IsValid {p} page v h = ground (
  arith,
  free_below-clear_in p.bitmap page p.total_pages,
  free_below-le p.bitmap p.total_pages,
  free_below-le (clear_bit p.bitmap page) p.total_pages,
  is_used-clear_bit p.bitmap page 0,
)

free_run-used :
    (n page : ℕ) (p : Pmm)
    → page + n < 2 ^ 32
    → (j : ℕ)
    → is_used (free_run n page p).bitmap j
      ≡ (if in_run page n j && ltb j p.total_pages then false else is_used p.bitmap j)
unfolding free_run
free_run-used zero page p h j = ground arith
free_run-used (suc n) page p h j =
    free_run-used n (add32 page 1) (free_at p page) (omega arith) j
    ∙ ground (arith, is_used-free_at p page j, total_pages-free_at p page)

free_run-IsValid :
    (n page : ℕ) {p : Pmm} → IsValid p → 0 < page → page + n < 2 ^ 32 → IsValid (free_run n page p)
unfolding free_run
free_run-IsValid zero page v pos h = v
free_run-IsValid (suc n) page {p} v pos h =
    free_run-IsValid n (add32 page 1) (free_at-IsValid page v pos) (omega arith) (omega arith)

total_pages-free_run : (n page : ℕ) (p : Pmm) → (free_run n page p).total_pages ≡ p.total_pages
unfolding free_run
total_pages-free_run zero page p = refl
total_pages-free_run (suc n) page p =
    total_pages-free_run n (add32 page 1) (free_at p page) ∙ total_pages-free_at p page

-- `pmm_free_pages` clears the marks of the run's pages below `total_pages` and no other mark, and
-- keeps the invariant, if the run does not start at page 0 and does not wrap around.
pub free_pages-IsValid :
    {p : Pmm} (addr count : ℕ)
    → IsValid p
    → page_size ≤ addr
    → addr / page_size + count < 2 ^ 32
    → IsValid (free_pages p addr count)
      × ((j : ℕ)
          → is_used (free_pages p addr count).bitmap j ≡ (
              if in_run (addr / page_size) count j && ltb j p.total_pages
              then false
              else is_used p.bitmap j))
unfolding free_pages
free_pages-IsValid {p} addr count v lo hi = (
  free_run-IsValid count (addr / 4096) v (omega arith) hi,
  free_run-used count (addr / 4096) p hi,
)

-- Freeing the run that was just allocated restores the set of pages in use and the count.
pub free_pages-alloc_pages :
    {p q : Pmm} {addr count : ℕ}
    → IsValid p
    → 0 < count
    → RunAllocated p count addr q
    → ((j : ℕ) → is_used (free_pages q addr count).bitmap j ≡ is_used p.bitmap j)
      × ((free_pages q addr count).free_count ≡ p.free_count)
free_pages-alloc_pages {p} {q} {addr} {count} v pos a = (
  same,
  unfold free_pages in
      omega (
        arith,
        freed.0.counted,
        v.counted,
        free_below_ext (free_pages q addr count).bitmap p.bitmap p.total_pages same,
        ap (free_below (free_pages q addr count).bitmap) same_total,
      ),
)
  where
    first : 0 < a.page
    first = ground (arith, v.zero_used, a.was_free 0)

    freed :
        IsValid (free_pages q addr count)
        × ((j : ℕ)
            → is_used (free_pages q addr count).bitmap j ≡ (
                if in_run (addr / page_size) count j && ltb j q.total_pages
                then false
                else is_used q.bitmap j))
    freed =
        free_pages-IsValid addr count a.taken.valid (omega (arith, first, a.address))
          (omega (arith, a.address, a.in_range, v.small))

    same : (j : ℕ) → is_used (free_pages q addr count).bitmap j ≡ is_used p.bitmap j
    same j =
        ground (
          arith,
          freed.1 j,
          a.taken.used j,
          a.was_free j,
          a.address,
          a.in_range,
          a.taken.same_total,
        )

    same_total : (free_pages q addr count).total_pages ≡ p.total_pages
    same_total =
        unfold free_pages in total_pages-free_run count (addr / 4096) q ∙ a.taken.same_total
