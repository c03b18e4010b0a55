-- ===== src/Pmm/Init/Tests.antt =====
-- `pmm_init` on a small map, and its theorems at it.
use neodymium.Base.{ℕ, ◌≡◌, refl, false, List, [], ◌∷◌, some, arith, ◌==◌, if◌then◌else◌}
use neodymium.Pmm.{is_used, reserve_run, reserve_page, take_page, set_bit}
use neodymium.Pmm.Init.{
  MmapEntry, MultibootInfo, mmap_entries, init, init_with, total_mem_of, total_pages_of, max_end,
  reserve_entries, reserve_entry, first_page, end_page,
}
use neodymium.Pmm.Init.Covers.{mmap_entries-some}

-- A map of two available ranges with a reserved page between them, and the kernel at 8 KiB.
abbrev boot_map : List MmapEntry
boot_map =
    record { addr_low = 0; len_low = 0x1000; type = 1 }
    ∷ record { addr_low = 0x1000; len_low = 0x1000; type = 2 }
    ∷ record { addr_low = 0x8000; len_low = 0x8000; type = 1 }
    ∷ []

abbrev info : MultibootInfo
info = record {
  flags = 65;
  mem_upper = 0;
  mmap_addr = 0x9000;
  mmap_length = 72;
  mmap_entry_size = 24;
}

abbrev entry_at : ℕ → MmapEntry
entry_at p =
    if p == 0x9000
    then record { addr_low = 0; len_low = 0x1000; type = 1 }
    else if p == 0x9018
    then record { addr_low = 0x1000; len_low = 0x1000; type = 2 }
    else record { addr_low = 0x8000; len_low = 0x8000; type = 1 }

init_reads_map : init entry_at 4 info 0x2000 0x3800 ≡ some (init_with info 0x2000 0x3800 boot_map)
unfolding init mmap_entries
init_reads_map = refl

-- The pages between the ranges, which no entry mentions, are free.
init_leaves_gap : is_used (init_with info 0x2000 0x3800 boot_map).bitmap 5 ≡ false
unfolding init_with total_mem_of total_pages_of max_end reserve_entries reserve_entry reserve_run
    reserve_page take_page set_bit is_used first_page end_page
init_leaves_gap = refl

mmap_entries-some_example :
    (es : List MmapEntry) × (mmap_entries entry_at 4 0x9000 0x9048 24 ≡ some es)
mmap_entries-some_example =
    mmap_entries-some entry_at 3 0x9000 0x9048 24 (omega arith) (omega arith) (omega arith)
