-- ===== src/Pmm/Run.antt =====
-- `pmm_alloc_pages`: runs of adjacent pages.
use neodymium.Base.{
  ℕ, zero, suc, ◌+◌, ◌*◌, ◌≤◌, ◌<◌, ◌≡◌, ◌⊎◌, refl, true, false, ◌&&◌, arith, ltb, leb, ◌==◌,
  if◌then◌else◌, Bool-cases, inl, inr, ℕ_discrete,
}
use neodymium.Pmm.{
  Bitmap, Pmm, page_size, is_used, take_page, run_is_free, take_run, alloc_run_loop, alloc_pages,
}
use neodymium.Pmm.View.{is_used-set_bit}
use neodymium.Pmm.Count.{free_below, free_below-le, free_below-set_in}
use neodymium.Pmm.Page.{IsValid, take_page-IsValid}

abbrev pub FreeRun : Bitmap → ℕ → ℕ → Type 0
FreeRun b i n = (j : ℕ) → i ≤ j → j < i + n → is_used b j ≡ false

run_is_free→FreeRun : (n i : ℕ) (b : Bitmap) → run_is_free n i b ≡ true → FreeRun b i n
unfolding run_is_free
run_is_free→FreeRun zero i b h j lo hi = absurd (omega arith)
run_is_free→FreeRun (suc n) i b h j lo hi = elim (ℕ_discrete i j) [
  | yes e ↦ ground arith
  | no ne ↦ run_is_free→FreeRun n (i + 1) b (ground arith) j (omega arith) (omega arith)
]

FreeRun→run_is_free : (n i : ℕ) (b : Bitmap) → FreeRun b i n → run_is_free n i b ≡ true
unfolding run_is_free
FreeRun→run_is_free zero i b h = refl
FreeRun→run_is_free (suc n) i b h =
    ground
      (arith, h i, FreeRun→run_is_free n (i + 1) b (λ j lo hi. h j (omega arith) (omega arith)))

-- `q` is `p` with the pages from `i` to `i + n` taken.
pub record TakenRun (p : Pmm) (i n : ℕ) (q : Pmm) : Type 0 where
  pub valid : IsValid q
  pub used :
      (j : ℕ) → is_used q.bitmap j ≡ (if leb i j && ltb j (i + n) then true else is_used p.bitmap j)
  pub count : q.free_count + n ≡ p.free_count
  pub same_total : q.total_pages ≡ p.total_pages

take_page_free_count :
    {p : Pmm} (i : ℕ)
    → IsValid p
    → i < p.total_pages
    → is_used p.bitmap i ≡ false
    → (take_page p i).free_count + 1 ≡ p.free_count
unfolding take_page
take_page_free_count {p} i v h f = omega (
  arith,
  v.counted,
  v.small,
  free_below-le p.bitmap p.total_pages,
  free_below-set_in p.bitmap i p.total_pages h f,
)

take_run-TakenRun :
    (n i : ℕ) {p : Pmm}
    → IsValid p
    → i + n ≤ p.total_pages
    → FreeRun p.bitmap i n
    → TakenRun p i n (take_run n i p)
unfolding take_run take_page
take_run-TakenRun zero i {p} v h f = record {
  valid = v;
  used = λ j. ground arith;
  count = omega arith;
  same_total = refl;
}
take_run-TakenRun (suc n) i {p} v h f =
    let first = f i (omega arith) (omega arith) in
    let w = take_page-IsValid i v (omega arith) first in
    let rest =
      take_run-TakenRun n (i + 1) w (omega arith)
        (λ j lo hi. ground (arith, is_used-set_bit p.bitmap i j, f j)) in
    record {
      valid = rest.valid;
      used = λ j. ground (arith, rest.used j, is_used-set_bit p.bitmap i j);
      count = omega (arith, rest.count, take_page_free_count i v (omega arith) first);
      same_total = rest.same_total;
    }

-- A free run is counted: the early test of `free_count` refuses no request that could be met.
FreeRun-le-free_below : (b : Bitmap) (i n m : ℕ) → FreeRun b i n → i + n ≤ m → n ≤ free_below b m
unfolding free_below
FreeRun-le-free_below b i n zero f h = omega arith
FreeRun-le-free_below b i zero (suc m) f h = omega arith
FreeRun-le-free_below b i (suc n) (suc m) f h = elim (ℕ_discrete (i + n) m) [
  | yes e ↦
      ground
        (arith, f m, FreeRun-le-free_below b i n m (λ j lo hi. f j lo (omega arith)) (omega arith))
  | no ne ↦ ground (arith, FreeRun-le-free_below b i (suc n) m f (omega arith))
]

-- `addr` is the lowest run of `count` free pages of `p`, and `q` is `p` with that run taken.
pub record RunAllocated (p : Pmm) (count addr : ℕ) (q : Pmm) : Type 0 where
  pub page : ℕ
  pub address : addr ≡ page * page_size
  pub in_range : page + count ≤ p.total_pages
  pub was_free : FreeRun p.bitmap page count
  pub lowest : (j : ℕ) → j < page → ¬ FreeRun p.bitmap j count
  pub taken : TakenRun p page count q

-- No run of `count` pages is free, and the request fails with nothing changed.
pub record RunRefused (p : Pmm) (count addr : ℕ) (q : Pmm) : Type 0 where
  pub null : addr ≡ 0
  pub unchanged : q ≡ p
  pub no_run : (i : ℕ) → i + count ≤ p.total_pages → ¬ FreeRun p.bitmap i count

abbrev pub RunOutcome : Pmm → ℕ → ℕ × Pmm → Type 0
RunOutcome p count (addr, q) = RunAllocated p count addr q ⊎ RunRefused p count addr q

alloc_run_loop-RunOutcome :
    (count n i : ℕ) {p : Pmm}
    → IsValid p
    → 0 < count
    → i + n + count ≡ p.total_pages + 1
    → ((j : ℕ) → j < i → ¬ FreeRun p.bitmap j count)
    → RunOutcome p count (alloc_run_loop count n i p)
unfolding alloc_run_loop
alloc_run_loop-RunOutcome count zero i {p} v pos e below =
    inr (record { null = refl; unchanged = refl; no_run = λ j h. below j (omega arith) })
alloc_run_loop-RunOutcome count (suc n) i {p} v pos e below =
    elim (Bool-cases (run_is_free count i p.bitmap)) [
      | inl free ↦
          let f = run_is_free→FreeRun count i p.bitmap free in
          rw free (
            inl (record {
              page = i;
              address = omega (arith, v.small);
              in_range = omega arith;
              was_free = f;
              lowest = below;
              taken = take_run-TakenRun count i v (omega arith) f;
            }))
      | inr blocked ↦ rw blocked (
          alloc_run_loop-RunOutcome count n (i + 1) v pos (omega arith) (λ j h.
            elim (ℕ_discrete j i) [
              | yes here ↦ λ f. cc (blocked, FreeRun→run_is_free count i p.bitmap (rw here at f))
              | no ne ↦ below j (omega arith)
            ]))
    ]

-- `pmm_alloc_pages` of at least one page takes the lowest run of adjacent free pages that is long
-- enough, keeping the invariant, or fails with nothing changed if no such run exists.
pub alloc_pages-RunOutcome :
    {p : Pmm} (count : ℕ) → IsValid p → 0 < count → RunOutcome p count (alloc_pages p count)
unfolding alloc_pages
alloc_pages-RunOutcome {p} count v pos =
    let some_asked : (count == 0) ≡ false = ground arith in
    elim (Bool-cases (ltb p.free_count count)) [
      | inl few ↦
          rw (some_asked, few)
            (inr (record {
              null = refl;
              unchanged = refl;
              no_run = λ i h f.
                  ground
                    (arith, FreeRun-le-free_below p.bitmap i count p.total_pages f h, v.counted);
            }))
      | inr enough ↦
          rw (some_asked, enough)
            (alloc_run_loop-RunOutcome count _ 0 v pos
              (ground (arith, v.counted, v.small, free_below-le p.bitmap p.total_pages))
              (λ j h. absurd (omega arith)))
    ]
