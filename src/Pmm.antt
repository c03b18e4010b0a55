-- ===== src/Pmm.antt =====
-- The physical page allocator, src/kernel/pmm.c: a bitmap with one bit for each 4 KiB page, set
-- while the page is in use, and a count of the free pages. `printf` of the boot banner is left out.
pub mod Count
pub mod Init
pub mod Page
pub mod Run
pub mod RunFree
pub mod Tests
pub mod View
use neodymium.Base.{
  ℕ, zero, suc, ◌+◌, ◌-◌, ◌*◌, ◌/◌, ◌%◌, ◌^◌, bit_and, bit_or, Bool, true, false, not, ◌&&◌, List,
  [], ◌∷◌, Option, none, some, ltb, leb, ◌==◌, if◌then◌else◌, update, u32, add32, sub32, not32,
  ◌>>>◌, ◌<<<◌,
}

abbrev pub page_size : ℕ
page_size = 4096

abbrev pub pmm_max_pages : ℕ
pmm_max_pages = 1048576

-- `pmm_bitmap`, by the index of the word.
abbrev pub Bitmap : Type 0
Bitmap = ℕ → ℕ

pub record Pmm : Type 0 where
  pub bitmap : Bitmap
  pub free_count : ℕ
  pub total_pages : ℕ

-- `(pmm_bitmap[i / 32] >> (i % 32)) & 1`
unfoldable pub is_used : Bitmap → ℕ → Bool
is_used b i = not (bit_and (b (i / 32) >>> (i % 32)) 1 == 0)

-- `pmm_bitmap[i / 32] |= (1 << (i % 32))`
pub set_bit : Bitmap → ℕ → Bitmap
set_bit b i = update b (i / 32) (bit_or (b (i / 32)) (1 <<< (i % 32)))

-- `pmm_bitmap[i / 32] &= ~(1 << (i % 32))`
unfoldable pub clear_bit : Bitmap → ℕ → Bitmap
clear_bit b i = update b (i / 32) (bit_and (b (i / 32)) (not32 (1 <<< (i % 32))))

-- The body that marks a page: the bit, and `free_count--`.
pub take_page : Pmm → ℕ → Pmm
take_page p i = record p { bitmap = set_bit p.bitmap i; free_count = sub32 p.free_count 1 }

-- The body that gives a page back: the bit, and `free_count++`.
unfoldable pub give_page : Pmm → ℕ → Pmm
give_page p i = record p { bitmap = clear_bit p.bitmap i; free_count = add32 p.free_count 1 }

-- The loop of `pmm_alloc_page` at page `i`, with the rounds left. Address 0 is the null result.
pub alloc_loop : ℕ → ℕ → Pmm → ℕ × Pmm
alloc_loop zero i p = (0, p)
alloc_loop (suc n) i p =
    let rest = alloc_loop n (i + 1) p in
    if is_used p.bitmap i then rest else (u32 (i * page_size), take_page p i)

pub alloc_page : Pmm → ℕ × Pmm
alloc_page p = if p.free_count == 0 then (0, p) else alloc_loop p.total_pages 0 p

-- The test and the body that `pmm_free_page` and `pmm_free_pages` share.
unfoldable pub free_at : Pmm → ℕ → Pmm
free_at p page = if ltb page p.total_pages && is_used p.bitmap page then give_page p page else p

unfoldable pub free_page : Pmm → ℕ → Pmm
unfolding free_at
free_page p addr = free_at p (addr / page_size)

-- The inner test of `pmm_alloc_pages`: the pages from `i` on are all free.
pub run_is_free : ℕ → ℕ → Bitmap → Bool
run_is_free zero i b = true
run_is_free (suc n) i b = let rest = run_is_free n (i + 1) b in if is_used b i then false else rest

-- The inner loop that marks them.
pub take_run : ℕ → ℕ → Pmm → Pmm
take_run zero i p = p
take_run (suc n) i p = take_run n (i + 1) (take_page p i)

pub alloc_run_loop : ℕ → ℕ → ℕ → Pmm → ℕ × Pmm
alloc_run_loop count zero i p = (0, p)
alloc_run_loop count (suc n) i p =
    let rest = alloc_run_loop count n (i + 1) p in
    if run_is_free count i p.bitmap then (u32 (i * page_size), take_run count i p) else rest

-- `i` runs up to `total_pages - count`, a difference of words, inclusive.
pub alloc_pages : Pmm → ℕ → ℕ × Pmm
alloc_pages p count =
    if count == 0
    then (0, p)
    else if ltb p.free_count count
    then (0, p)
    else alloc_run_loop count (sub32 p.total_pages count + 1) 0 p

pub free_run : ℕ → ℕ → Pmm → Pmm
free_run zero page p = p
free_run (suc n) page p = free_run n (add32 page 1) (free_at p page)

pub free_pages : Pmm → ℕ → ℕ → Pmm
free_pages p addr count = free_run count (addr / page_size) p

-- Marks a page that is not marked yet, as `pmm_init` does for the kernel and reserved memory.
pub reserve_page : Pmm → ℕ → Pmm
reserve_page p i = if is_used p.bitmap i then p else take_page p i

pub reserve_run : ℕ → ℕ → Pmm → Pmm
reserve_run zero i p = p
reserve_run (suc n) i p = reserve_run n (i + 1) (reserve_page p i)
