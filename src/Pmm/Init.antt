-- ===== src/Pmm/Init.antt =====
-- `pmm_init`: the bitmap after boot, from the memory map of the boot loader. The map's entries lie
-- in memory, which is the parameter `entry_at`; the linker gives the ends of the kernel. The walk
-- over the entries takes fuel, since an entry size of 0 does not advance it.
pub mod Covers
pub mod Marks
mod Tests
use mathlib.Core.Option
use neodymium.Base.{
  ℕ, zero, suc, ◌+◌, ◌-◌, ◌*◌, ◌/◌, ◌^◌, min, bit_and, Bool, not, ◌&&◌, List, [], ◌∷◌, Option, none,
  some, ltb, ◌==◌, if◌then◌else◌, u32, add32, sub32,
}
use neodymium.Pmm.{Bitmap, Pmm, page_size, pmm_max_pages, take_page, reserve_run}

-- The fields of `struct multiboot_mmap_entry` that `pmm_init` reads.
pub record MmapEntry : Type 0 where
  pub addr_low : ℕ
  pub len_low : ℕ
  pub type : ℕ

-- The fields of `struct multiboot_info` that `pmm_init` reads.
pub record MultibootInfo : Type 0 where
  pub flags : ℕ
  pub mem_upper : ℕ
  pub mmap_addr : ℕ
  pub mmap_length : ℕ
  pub mmap_entry_size : ℕ

-- `while (mmap < mmap_end) { ...; mmap += mmap_entry_size; }`: the entries that it visits.
pub mmap_entries : (ℕ → MmapEntry) → ℕ → ℕ → ℕ → ℕ → Option (List MmapEntry)
mmap_entries entry_at zero cur stop size = none
mmap_entries entry_at (suc fuel) cur stop size =
    let rest =
      Option.map (λ es. entry_at cur ∷ es)
        (mmap_entries entry_at fuel (add32 cur size) stop size) in
    if ltb cur stop then rest else some []

-- The end of an entry, as a word.
abbrev pub entry_end : MmapEntry → ℕ
entry_end e = add32 e.addr_low e.len_low

-- The first pass: the largest end.
pub max_end : ℕ → List MmapEntry → ℕ
max_end total [] = total
max_end total (e ∷ es) = max_end (if ltb total (entry_end e) then entry_end e else total) es

-- The pages `sp` and `ep` of an entry; the end is cut at `total_mem`.
pub first_page : MmapEntry → ℕ
first_page e = u32 (e.addr_low + page_size - 1) / page_size

pub end_page : ℕ → MmapEntry → ℕ
end_page total_mem e =
    let stop = if ltb total_mem (entry_end e) then total_mem else entry_end e in
    u32 (stop + page_size - 1) / page_size

-- The second pass: the pages of an entry that is not of type 1 (available) are marked.
pub reserve_entry : ℕ → Pmm → MmapEntry → Pmm
reserve_entry total_mem p e =
    if not (e.type == 1) && ltb e.addr_low total_mem
    then reserve_run (min (end_page total_mem e) p.total_pages - first_page e) (first_page e) p
    else p

pub reserve_entries : ℕ → List MmapEntry → Pmm → Pmm
reserve_entries total_mem [] p = p
reserve_entries total_mem (e ∷ es) p = reserve_entries total_mem es (reserve_entry total_mem p e)

-- `total_mem`: the largest end, or the size that the boot loader gives if there is none.
pub total_mem_of : MultibootInfo → List MmapEntry → ℕ
total_mem_of info entries =
    let total_mem = max_end 0 entries in
    if total_mem == 0 && not (bit_and info.flags 1 == 0)
    then u32 (u32 (info.mem_upper + 1024) * 1024)
    else total_mem

pub total_pages_of : ℕ → ℕ
total_pages_of total_mem =
    if ltb pmm_max_pages (total_mem / page_size) then pmm_max_pages else total_mem / page_size

-- `pmm_init` over the entries of the map (no entries, if flag bit 6 is clear): page 0, then the
-- kernel's pages, then the reserved entries. The kernel's loop has no bound by `total_pages`.
pub init_with : MultibootInfo → (kernel_start kernel_end : ℕ) → List MmapEntry → Pmm
init_with info kernel_start kernel_end entries =
    let total_mem = total_mem_of info entries in
    let total_pages = total_pages_of total_mem in
    let fresh : Pmm = record {
      bitmap = λ _. 0;
      free_count = total_pages;
      total_pages = total_pages;
    } in
    let ksp = kernel_start / page_size in
    let kep = u32 (kernel_end + page_size - 1) / page_size in
    reserve_entries total_mem entries (reserve_run (kep - ksp) ksp (take_page fresh 0))

pub init : (ℕ → MmapEntry) → ℕ → MultibootInfo → (kernel_start kernel_end : ℕ) → Option Pmm
init entry_at fuel info kernel_start kernel_end =
    Option.map (init_with info kernel_start kernel_end) (
      if bit_and info.flags 64 == 0
      then some []
      else mmap_entries entry_at fuel info.mmap_addr (add32 info.mmap_addr info.mmap_length)
          info.mmap_entry_size)
