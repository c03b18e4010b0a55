-- ===== src/Pmm/Tests.antt =====
-- The allocator on small memories, and its theorems at them.
use neodymium.Base.{ℕ, ◌+◌, ◌/◌, ◌≡◌, refl, true, false, ◌&&◌, arith, ltb, if◌then◌else◌}
use neodymium.Pmm
use neodymium.Pmm.{Pmm, page_size, is_used, alloc_page, alloc_pages, free_page, free_pages}
use neodymium.Pmm.Count.{free_below}
use neodymium.Pmm.Page.{IsValid, Allocated, alloc_page-Allocated, alloc_page-free_null}
use neodymium.Pmm.Run.{RunOutcome, alloc_pages-RunOutcome}
use neodymium.Pmm.RunFree.{free_pages-IsValid, in_run}

-- Eight pages, of which 0 and 2 are in use.
abbrev pub eight : Pmm
eight = record { bitmap = λ _. 5; free_count = 6; total_pages = 8 }

pub eight-IsValid : IsValid eight
unfolding free_below is_used
eight-IsValid = record { counted = refl; small = omega arith; zero_used = refl }

pub eight-used : is_used eight.bitmap 2 ≡ true
unfolding is_used
eight-used = refl

alloc_page_first : (alloc_page eight).0 ≡ 4096
unfolding alloc_page Pmm.alloc_loop is_used
alloc_page_first = refl

alloc_pages_after_gap : (alloc_pages eight 2).0 ≡ 12288
unfolding alloc_pages Pmm.alloc_run_loop Pmm.run_is_free is_used
alloc_pages_after_gap = refl

alloc_page-Allocated_example :
    let (addr, q) = alloc_page eight in Allocated eight addr q × IsValid q
alloc_page-Allocated_example = alloc_page-Allocated eight-IsValid (omega arith)

alloc_page-free_null_example :
    let q = free_page eight 0 in (q.free_count ≡ eight.free_count + 1) × ((alloc_page q).0 ≡ 0)
alloc_page-free_null_example = alloc_page-free_null eight-IsValid (omega arith)

alloc_pages-RunOutcome_example : RunOutcome eight 2 (alloc_pages eight 2)
alloc_pages-RunOutcome_example = alloc_pages-RunOutcome 2 eight-IsValid (omega arith)

free_pages-IsValid_example :
    IsValid (free_pages eight 8192 3)
    × ((j : ℕ)
        → is_used (free_pages eight 8192 3).bitmap j ≡ (
            if in_run (8192 / page_size) 3 j && ltb j eight.total_pages
            then false
            else is_used eight.bitmap j))
free_pages-IsValid_example = free_pages-IsValid 8192 3 eight-IsValid (omega arith) (omega arith)
