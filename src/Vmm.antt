-- ===== src/Vmm.antt =====
-- Address spaces, src/kernel/vmm.c: page directories and page tables in physical memory. A pointer
-- to a table is the address of its page, and `mem p i` is the word `i` of the page at `p`. The kernel
-- reaches these pages at their own addresses through the current directory, so that a read or write
-- at `p` is one of the page `p` as long as the directory maps it there: Vmm/Tree says so as
-- `IsIdentity`, which the theorems on a space that user pages are mapped into have as a hypothesis
-- and show to stay. The loads of cr3 and the flushes are left out.
pub mod Map
pub mod Space
pub mod Init
pub mod Clone
pub mod Tree
mod Tests
use neodymium.Base.{
  ℕ, zero, suc, ◌+◌, ◌-◌, ◌*◌, ◌/◌, ◌%◌, ◌^◌, bit_and, bit_or, Bool, true, false, not, ◌&&◌, ◌||◌,
  ltb, ◌==◌, if◌then◌else◌, for_below, update2, ◌>>>◌,
}
use neodymium.Pmm
use neodymium.Pmm.{Pmm}

abbrev pub vmm_present : ℕ
vmm_present = 1

abbrev pub vmm_writable : ℕ
vmm_writable = 2

abbrev pub vmm_user : ℕ
vmm_user = 4

pub record Vmm : Type 0 where
  pub pmm : Pmm
  pub mem : ℕ → ℕ → ℕ
  pub current_page_directory : ℕ
  pub kernel_page_directory : ℕ

abbrev pub pd_idx : ℕ → ℕ
pd_idx v = v >>> 22

abbrev pub pt_idx : ℕ → ℕ
pt_idx v = bit_and (v >>> 12) 0x3FF

-- `e & flag`, as a condition.
abbrev pub has : ℕ → ℕ → Bool
has e flag = not (bit_and e flag == 0)

-- The table or page that an entry points to.
abbrev pub frame : ℕ → ℕ
frame e = bit_and e 0xFFFFF000

-- The `for` loops over the 1024 words of a page.
pub copy_page : (ℕ → ℕ → ℕ) → (to from : ℕ) → ℕ → ℕ → ℕ
copy_page m to from = for_below 1024 (λ j a. update2 a to j (a from j)) m

pub zero_page : (ℕ → ℕ → ℕ) → ℕ → ℕ → ℕ → ℕ
zero_page m page = for_below 1024 (λ j a. update2 a page j 0) m

-- `if (flags & VMM_USER) pd[i] |= VMM_USER`.
pub mark_user : (ℕ → ℕ → ℕ) → (pd i flags : ℕ) → ℕ → ℕ → ℕ
mark_user m pd i flags = if has flags vmm_user then update2 m pd i (bit_or (m pd i) vmm_user) else m

-- The first part of `vmm_map_page_in`: a table shared with the kernel is copied first. The result is
-- false where the source returns.
pub own_table : Vmm → (pd i flags : ℕ) → Bool × Vmm
own_table v pd i flags =
    if not (pd == v.kernel_page_directory)
      && (has (v.mem pd i) vmm_present && v.mem pd i == v.mem v.kernel_page_directory i)
    then (let (new_pt, pmm) = Pmm.alloc_page v.pmm in
        if new_pt == 0
        then (false, record v { pmm = pmm })
        else (let m1 = copy_page v.mem new_pt (frame (v.mem pd i)) in
            let m2 = update2 m1 pd i (bit_or new_pt (bit_and (m1 pd i) 0xFFF)) in
            (true, record v { pmm = pmm; mem = mark_user m2 pd i flags })))
    else (true, v)

-- The second part: a missing table is made.
pub make_table : Vmm → (pd i flags : ℕ) → Bool × Vmm
make_table v pd i flags =
    if has (v.mem pd i) vmm_present
    then (true, v)
    else (let (pt, pmm) = Pmm.alloc_page v.pmm in
        if pt == 0
        then (false, record v { pmm = pmm })
        else (let m1 = zero_page v.mem pt in
            let e = bit_or (bit_or (bit_or pt vmm_present) vmm_writable) (bit_and flags vmm_user) in
            (true, record v { pmm = pmm; mem = update2 m1 pd i e })))

-- The last part: the entry of the page.
pub set_entry : Vmm → (pd virt phys flags : ℕ) → Vmm
set_entry v pd virt phys flags =
    let m1 = mark_user v.mem pd (pd_idx virt) flags in
    let pt = frame (m1 pd (pd_idx virt)) in
    let e = bit_or (bit_or (bit_and phys 0xFFFFF000) flags) vmm_present in
    record v { mem = update2 m1 pt (pt_idx virt) e }

pub and_then : Bool × Vmm → (Vmm → Bool × Vmm) → Bool × Vmm
and_then (false, v) next = (false, v)
and_then (true, v) next = next v

-- `vmm_map_page_in`; the Boolean tells whether it got to its end, which the source does not report.
pub map_page_in : Vmm → (pd virt phys flags : ℕ) → Bool × Vmm
map_page_in v pd virt phys flags = and_then (own_table v pd (pd_idx virt) flags) (λ v1.
    and_then (make_table v1 pd (pd_idx virt) flags) (λ v2. (true, set_entry v2 pd virt phys flags)))

-- `vmm_map_page`, whose body is that of `vmm_map_page_in` with the current directory.
pub map_page : Vmm → (virt phys flags : ℕ) → Bool × Vmm
map_page v virt phys flags = map_page_in v v.current_page_directory virt phys flags

-- `vmm_get_phys`; 0 is the null result.
pub get_phys : Vmm → ℕ → ℕ
get_phys v virt =
    let e = v.mem v.current_page_directory (pd_idx virt) in
    let p = v.mem (frame e) (pt_idx virt) in
    if not (has e vmm_present)
    then 0
    else if not (has p vmm_present)
    then 0
    else frame p + bit_and virt 0xFFF

pub unmap_page : Vmm → ℕ → Vmm
unmap_page v virt =
    let e = v.mem v.current_page_directory (pd_idx virt) in
    if not (has e vmm_present)
    then v
    else record v { mem = update2 v.mem (frame e) (pt_idx virt) 0 }

pub alloc_page_in : Vmm → (pd virt flags : ℕ) → ℕ × Vmm
alloc_page_in v pd virt flags =
    let (phys, pmm) = Pmm.alloc_page v.pmm in
    if phys == 0
    then (0, record v { pmm = pmm })
    else (phys, (map_page_in (record v { pmm = pmm }) pd virt phys flags).1)

pub alloc_page : Vmm → (virt flags : ℕ) → ℕ × Vmm
alloc_page v virt flags = alloc_page_in v v.current_page_directory virt flags

pub free_page : Vmm → ℕ → Vmm
free_page v virt =
    let phys = get_phys v virt in
    if phys == 0
    then v
    else (let v1 = unmap_page v virt in record v1 { pmm = Pmm.free_page v1.pmm phys })

pub create_address_space : Vmm → ℕ × Vmm
create_address_space v =
    let (pd, pmm) = Pmm.alloc_page v.pmm in
    if pd == 0 then (0, record v { pmm = pmm }) else (
      pd,
      record v {
        pmm = pmm;
        mem =
            for_below 1024
              (λ i m. update2 m pd i (
                if has (m v.kernel_page_directory i) vmm_present
                then m v.kernel_page_directory i
                else 0))
              v.mem;
      },
    )

pub switch_address_space : Vmm → ℕ → Vmm
switch_address_space v pd = record v { current_page_directory = pd }

-- The pages that one table of `vmm_destroy_address_space` gives back, and the table.
pub free_table : (mem : ℕ → ℕ → ℕ) (pt : ℕ) → Pmm → Pmm
free_table mem pt p =
    Pmm.free_page
      (for_below 1024
        (λ j q. if has (mem pt j) vmm_present then Pmm.free_page q (frame (mem pt j)) else q) p)
      pt

pub destroy_address_space : Vmm → ℕ → Vmm
destroy_address_space v pd = if pd == 0 || pd == v.kernel_page_directory then v else record v {
  pmm =
      Pmm.free_page
        (for_below 1024
          (λ i p.
            let e = v.mem pd i in
            let k = v.mem v.kernel_page_directory i in
            if not (has e vmm_present)
            then p
            else if has k vmm_present && e == k
            then p
            else free_table v.mem (frame e) p)
          v.pmm)
        pd;
}
