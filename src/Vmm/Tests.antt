-- ===== src/Vmm/Tests.antt =====
-- A mapping in a small machine.
use neodymium.Base.{◌≡◌, refl, ◌+◌, ◌*◌, ◌/◌, ◌%◌, arith, if◌then◌else◌, ◌==◌, ℕ, ◌<◌, some}
use neodymium.Pmm.Tests.{eight, eight-IsValid, eight-used}
use neodymium.Vmm.{Vmm, pd_idx, map_page, own_table, make_table, and_then, map_page_in, get_phys}
use neodymium.Vmm.Init.{init}
use neodymium.Vmm.Init.Identity.{init-get_phys}
use neodymium.Vmm.Space.{IsSpace, map_page-get_phys}

-- Page 2 is the directory, and every entry of it points to the table in page 3.
abbrev machine : Vmm
machine = record {
  pmm = eight;
  mem = λ p i. if p == 8192 then 12291 else 0;
  current_page_directory = 8192;
  kernel_page_directory = 8192;
}

machine-IsSpace : IsSpace machine 8192 (pd_idx 0xB0000123)
machine-IsSpace = record {
  allocator = eight-IsValid;
  page = 2;
  address = refl;
  used = eight-used;
  word = omega arith;
  apart = λ e. omega arith;
}

map_page-get_phys_example :
    get_phys (map_page machine 0xB0000123 0x5000 6).1 0xB0000123
    ≡ 0x5000 / 4096 * 4096 + 0xB0000123 % 4096
unfolding map_page map_page_in own_table make_table and_then
map_page-get_phys_example =
    map_page-get_phys {v = machine} 0xB0000123 0x5000 6 machine-IsSpace (omega arith) (omega arith)
      refl

init-get_phys_example :
    (w : Vmm) × (init machine ≡ some w)
    × ((virt : ℕ) → virt < machine.pmm.total_pages * 4096 → get_phys w virt ≡ virt)
init-get_phys_example = init-get_phys machine eight-IsValid (omega arith)
