-- ===== src/Vmm/Clone.antt =====
-- `vmm_clone_address_space`, the copy of an address space for a fork: each table that is not shared with
-- the kernel is copied with its pages. A Boolean tells whether a part succeeded, since a failure
-- stops the loops.
mod Words
pub mod Frame
mod Tests
use neodymium.Base.{
  ℕ, bit_and, bit_or, Bool, true, false, not, ◌&&◌, ◌==◌, if◌then◌else◌, for_below, update2,
}
use neodymium.Pmm
use neodymium.Pmm.{Pmm}
use neodymium.Vmm.{
  Vmm, vmm_present, has, frame, copy_page, create_address_space, destroy_address_space,
}

-- The body of the loop over the entries of a table.
pub copy_entry : (old_pt new_pt j : ℕ) → Vmm → Bool × Vmm
copy_entry old_pt new_pt j v =
    let e = v.mem old_pt j in
    let (new_page, pmm) = Pmm.alloc_page v.pmm in
    let m1 = copy_page v.mem new_page (frame e) in
    let m2 = update2 m1 new_pt j (bit_or new_page (bit_and (m1 old_pt j) 0xFFF)) in
    if not (has e vmm_present)
    then (true, record v { mem = update2 v.mem new_pt j 0 })
    else if new_page == 0
    then (false, record v { pmm = pmm })
    else (true, record v { pmm = pmm; mem = m2 })

-- One round of a loop that a failure stops.
pub unless_failed : (Vmm → Bool × Vmm) → Bool × Vmm → Bool × Vmm
unless_failed f (true, v) = f v
unless_failed f (false, v) = (false, v)

pub copy_table : (old_pt new_pt : ℕ) → Vmm → Bool × Vmm
copy_table old_pt new_pt v =
    for_below 1024 (λ j r. unless_failed (copy_entry old_pt new_pt j) r) (true, v)

-- What a failure gives back: the pages that the new table points to, the table, and the directory.
pub give_up : (new_pd new_pt : ℕ) → Vmm → Vmm
give_up new_pd new_pt v =
    let pmm1 =
      for_below 1024
        (λ j p.
          if has (v.mem new_pt j) vmm_present then Pmm.free_page p (frame (v.mem new_pt j)) else p)
        v.pmm in
    destroy_address_space (record v { pmm = Pmm.free_page pmm1 new_pt }) new_pd

-- A table that was copied is entered in the directory.
pub enter_table : (pd new_pd new_pt i : ℕ) → Bool × Vmm → Bool × Vmm
enter_table pd new_pd new_pt i (true, v) =
    (true, record v { mem = update2 v.mem new_pd i (bit_or new_pt (bit_and (v.mem pd i) 0xFFF)) })
enter_table pd new_pd new_pt i (false, v) = (false, give_up new_pd new_pt v)

-- The body of the loop over the directory.
pub clone_entry : (pd new_pd i : ℕ) → Vmm → Bool × Vmm
clone_entry pd new_pd i v =
    let e = v.mem pd i in
    let k = v.mem v.kernel_page_directory i in
    let (new_pt, pmm) = Pmm.alloc_page v.pmm in
    let v1 = record v { pmm = pmm } in
    if not (has e vmm_present)
    then (true, v)
    else if has k vmm_present && e == k
    then (true, v)
    else if new_pt == 0
    then (false, destroy_address_space v1 new_pd)
    else enter_table pd new_pd new_pt i (copy_table (frame e) new_pt v1)

pub cloned : (pd : ℕ) → ℕ × Vmm → Bool × Vmm
cloned pd (new_pd, v) =
    if new_pd == 0
    then (false, v)
    else for_below 1024 (λ i r. unless_failed (clone_entry pd new_pd i) r) (true, v)

pub clone_address_space : Vmm → (pd : ℕ) → ℕ × Vmm
clone_address_space v pd =
    let made = create_address_space v in
    let (done, w) = cloned pd made in (if done then made.0 else 0, w)
