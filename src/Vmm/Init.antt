-- ===== src/Vmm/Init.antt =====
-- `vmm_init`: the kernel's page directory, which maps every page to itself. The page fault handler and
-- the switch to paging are left out.
pub mod Tables
pub mod Identity
use neodymium.Base.{
  ℕ, zero, suc, ◌+◌, ◌-◌, ◌*◌, ◌/◌, ◌<◌, min, bit_or, Option, none, some, ◌==◌, if◌then◌else◌, u32,
  for_below, update2,
}
use neodymium.Pmm
use neodymium.Pmm.{Pmm, page_size}
use neodymium.Vmm.{Vmm, vmm_present, vmm_writable, vmm_user, zero_page}

-- `address | VMM_PRESENT | VMM_WRITABLE | VMM_USER`.
abbrev pub open_entry : ℕ → ℕ
open_entry address = bit_or (bit_or (bit_or address vmm_present) vmm_writable) vmm_user

-- The inner loop, which fills the table for the pages from `i` on.
pub fill_table : (ℕ → ℕ → ℕ) → (pt i total : ℕ) → ℕ → ℕ → ℕ
fill_table m pt i total =
    for_below (min 1024 (total - i))
      (λ j a. update2 a pt j (open_entry (u32 ((i + j) * page_size)))) m

-- One round of the outer loop; `none` is the panic.
pub add_table : (total idx : ℕ) → Vmm → Option Vmm
add_table total idx v =
    let (pt, pmm) = Pmm.alloc_page v.pmm in
    if pt == 0
    then none
    else some (record v {
      pmm = pmm;
      mem =
          update2 (fill_table v.mem pt (idx * 1024) total) v.kernel_page_directory idx
            (open_entry pt);
    })

pub and_table : (total idx : ℕ) → Option Vmm → Option Vmm
and_table total idx none = none
and_table total idx (some v) = add_table total idx v

pub add_tables : (n total : ℕ) → Vmm → Option Vmm
add_tables zero total v = some v
add_tables (suc n) total v = and_table total n (add_tables n total v)

pub init : Vmm → Option Vmm
init v =
    let total = v.pmm.total_pages in
    let (pd, pmm) = Pmm.alloc_page v.pmm in
    if pd == 0
    then none
    else add_tables ((total + 1023) / 1024) total (record v {
      pmm = pmm;
      mem = zero_page v.mem pd;
      kernel_page_directory = pd;
      current_page_directory = pd;
    })
