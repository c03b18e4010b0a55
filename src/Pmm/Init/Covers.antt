-- ===== src/Pmm/Init/Covers.antt =====
-- Which pages are in use after `pmm_init`, and its invariant.
use native.Mathlib.Nat.{zero-div}
use mathlib.Core.Bool.{or_assoc}
use neodymium.Base.{
  ℕ, zero, suc, ◌+◌, ◌-◌, ◌*◌, ◌/◌, ◌%◌, ◌^◌, ◌≤◌, ◌<◌, ◌≡◌, refl, ◌∙◌, min, Bool, false, not, ◌&&◌,
  ◌||◌, List, [], ◌∷◌, some, arith, ltb, leb, ◌==◌, add32, u32, Bool-cases, inl, inr,
}
use neodymium.Pmm.{Pmm, page_size, pmm_max_pages, is_used, take_page, reserve_page, reserve_run}
use neodymium.Pmm.View.{is_used-set_bit}
use neodymium.Pmm.Count.{free_below, free_below-set_in}
use neodymium.Pmm.Page.{IsValid, take_page-IsValid}
use neodymium.Pmm.Init.{
  MmapEntry, MultibootInfo, mmap_entries, first_page, end_page, reserve_entry, reserve_entries,
  total_mem_of, total_pages_of, init_with,
}

-- A walk of `n` entries of `size` bytes that does not wrap ends within `n + 1` rounds.
pub mmap_entries-some :
    (entry_at : ℕ → MmapEntry) (n cur stop size : ℕ)
    → 0 < size
    → stop ≤ cur + n * size
    → stop + size < 2 ^ 32
    → (es : List MmapEntry) × (mmap_entries entry_at (suc n) cur stop size ≡ some es)
unfolding mmap_entries
mmap_entries-some entry_at zero cur stop size pos h small = ([], ground arith)
mmap_entries-some entry_at (suc n) cur stop size pos h small = elim (Bool-cases (ltb cur stop)) [
  | inl more ↦
      let (es, e) =
        mmap_entries-some entry_at n (add32 cur size) stop size pos (ground arith) small in
      (entry_at cur ∷ es, rw (more, e))
  | inr done ↦ ([], rw done)
]

-- The entry is reserved, and the page lies between its first page and its end.
abbrev pub covers : ℕ → ℕ → MmapEntry → ℕ → Bool
covers total_mem total_pages e j =
    (not (e.type == 1) && ltb e.addr_low total_mem)
    && (leb (first_page e) j && (ltb j (end_page total_mem e) && ltb j total_pages))

abbrev pub covered : ℕ → ℕ → List MmapEntry → ℕ → Bool
covered total_mem total_pages [] j = false
covered total_mem total_pages (e ∷ es) j =
    covers total_mem total_pages e j || covered total_mem total_pages es j

is_used-reserve_page :
    (p : Pmm) (i j : ℕ) → is_used (reserve_page p i).bitmap j ≡ (is_used p.bitmap j || (i == j))
unfolding reserve_page take_page
is_used-reserve_page p i j = ground (arith, is_used-set_bit p.bitmap i j)

total_pages-reserve_page : (p : Pmm) (i : ℕ) → (reserve_page p i).total_pages ≡ p.total_pages
unfolding reserve_page take_page
total_pages-reserve_page p i = ground arith

reserve_page-IsValid :
    {p : Pmm} (i : ℕ) → IsValid p → i < p.total_pages → IsValid (reserve_page p i)
unfolding reserve_page
reserve_page-IsValid {p} i v h = ground (arith, take_page-IsValid i v)

-- What a run of reservations leaves: a valid allocator with the run's pages in use as well.
record Reserved (p : Pmm) (marked : ℕ → Bool) (q : Pmm) : Type 0 where
  used : (j : ℕ) → is_used q.bitmap j ≡ (is_used p.bitmap j || marked j)
  same_total : q.total_pages ≡ p.total_pages
  valid : IsValid p → IsValid q

reserve_run-Reserved :
    (n i : ℕ) (p : Pmm)
    → n ≤ p.total_pages - i
    → Reserved p (λ j. leb i j && ltb j (i + n)) (reserve_run n i p)
unfolding reserve_run
reserve_run-Reserved zero i p h = record {
  used = λ j. ground arith;
  same_total = refl;
  valid = λ v. v;
}
reserve_run-Reserved (suc n) i p h =
    let rest =
      reserve_run-Reserved n (i + 1) (reserve_page p i)
        (omega (arith, total_pages-reserve_page p i)) in
    record {
      used = λ j. ground (arith, rest.used j, is_used-reserve_page p i j);
      same_total = rest.same_total ∙ total_pages-reserve_page p i;
      valid = λ v. rest.valid (reserve_page-IsValid i v (omega arith));
    }

reserve_entry-Reserved :
    (total_mem : ℕ) (p : Pmm) (e : MmapEntry)
    → Reserved p (covers total_mem p.total_pages e) (reserve_entry total_mem p e)
unfolding reserve_entry
reserve_entry-Reserved total_mem p e =
    elim (Bool-cases (not (e.type == 1) && ltb e.addr_low total_mem)) [
      | inl reserved ↦
          let sp = first_page e in
          let n = min (end_page total_mem e) p.total_pages - sp in
          let run = reserve_run-Reserved n sp p (omega arith) in
          rw reserved (record {
            used = λ j. run.used j ∙ ground arith;
            same_total = run.same_total;
            valid = run.valid;
          })
      | inr skipped ↦
          rw skipped (record { used = λ j. ground arith; same_total = refl; valid = λ v. v })
    ]

reserve_entries-Reserved :
    (total_mem : ℕ) (es : List MmapEntry) (p : Pmm)
    → Reserved p (covered total_mem p.total_pages es) (reserve_entries total_mem es p)
unfolding reserve_entries
reserve_entries-Reserved total_mem [] p = record {
  used = λ j. ground arith;
  same_total = refl;
  valid = λ v. v;
}
reserve_entries-Reserved total_mem (e ∷ es) p =
    let first = reserve_entry-Reserved total_mem p e in
    let rest = reserve_entries-Reserved total_mem es (reserve_entry total_mem p e) in
    record {
      used = λ j.
          rest.used j
          ∙ rw first.same_total (
              rw (first.used j) (
                or_assoc (is_used p.bitmap j) (covers total_mem p.total_pages e j)
                  (covered total_mem p.total_pages es j)));
      same_total = rest.same_total ∙ first.same_total;
      valid = λ v. rest.valid (first.valid v);
    }

abbrev empty : ℕ → Pmm
empty total = record { bitmap = λ _. 0; free_count = total; total_pages = total }

is_used-empty : (j : ℕ) → is_used (λ _. 0) j ≡ false
unfolding is_used
is_used-empty j = rw (zero-div (2 ^ (j % 32)))

free_below-empty : (n : ℕ) → free_below (λ _. 0) n ≡ n
unfolding free_below
free_below-empty zero = refl
free_below-empty (suc n) = rw (is_used-empty n, free_below-empty n) (omega arith)

take_zero-IsValid :
    (total : ℕ) → 0 < total → total ≤ pmm_max_pages → IsValid (take_page (empty total) 0)
unfolding take_page
take_zero-IsValid total pos small = ground (
  arith,
  free_below-empty total,
  is_used-empty 0,
  free_below-set_in (λ _. 0) 0 total,
  is_used-set_bit (λ _. 0) 0 0,
)

take_zero-used : (total j : ℕ) → is_used (take_page (empty total) 0).bitmap j ≡ (0 == j)
unfolding take_page
take_zero-used total j = ground (arith, is_used-empty j, is_used-set_bit (λ _. 0) 0 j)

-- The page lies between the two addresses of the kernel.
abbrev pub kernel_page : (kernel_start kernel_end : ℕ) → ℕ → Bool
kernel_page kernel_start kernel_end j =
    leb (kernel_start / page_size) j && ltb j (u32 (kernel_end + page_size - 1) / page_size)

-- The pages in use, in the code's own terms.
pub init_with-used :
    (info : MultibootInfo) (kernel_start kernel_end : ℕ) (entries : List MmapEntry)
    → 0 < total_pages_of (total_mem_of info entries)
    → u32 (kernel_end + page_size - 1) / page_size ≤ total_pages_of (total_mem_of info entries)
    → let total_mem = total_mem_of info entries in
      let p = init_with info kernel_start kernel_end entries in
      IsValid p
      × (p.total_pages ≡ total_pages_of total_mem)
      × ((j : ℕ)
          → is_used p.bitmap j ≡ (
              (0 == j)
              || kernel_page kernel_start kernel_end j
              || covered total_mem (total_pages_of total_mem) entries j))
unfolding init_with
init_with-used info kernel_start kernel_end entries pos fits = (
  all.valid (kernel.valid (take_zero-IsValid total pos small)),
  all.same_total ∙ kernel.same_total ∙ same_take,
  λ j.
      all.used j
      ∙ rw (kernel.used j, kernel.same_total, take_zero-used total j)
          (unfold take_page in ground arith),
)
  where
    total_mem : ℕ
    total_mem = total_mem_of info entries

    total : ℕ
    total = total_pages_of total_mem

    small : total ≤ pmm_max_pages
    small = unfold total_pages_of in ground arith

    ksp : ℕ
    ksp = kernel_start / page_size

    kep : ℕ
    kep = u32 (kernel_end + page_size - 1) / page_size

    zero_taken : Pmm
    zero_taken = take_page (empty total) 0

    same_take : zero_taken.total_pages ≡ total
    same_take = unfold take_page in refl

    kernel :
        Reserved zero_taken
          (λ j. leb ksp j && ltb j (ksp + (kep - ksp)))
          (reserve_run (kep - ksp) ksp zero_taken)
    kernel = reserve_run-Reserved (kep - ksp) ksp zero_taken (omega (arith, same_take, fits))

    all :
        Reserved
          (reserve_run (kep - ksp) ksp zero_taken)
          (covered total_mem (reserve_run (kep - ksp) ksp zero_taken).total_pages entries)
          (reserve_entries total_mem entries (reserve_run (kep - ksp) ksp zero_taken))
    all = reserve_entries-Reserved total_mem entries (reserve_run (kep - ksp) ksp zero_taken)
