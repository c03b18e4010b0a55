-- ===== src/Vmm/Clone/Tests.antt =====
-- A failure of a copy reads entries of the new table that nothing has written.
use neodymium.Base.{◌≡◌, refl, false, if◌then◌else◌, ◌==◌}
use neodymium.Pmm
use neodymium.Pmm.{Pmm, is_used}
use neodymium.Vmm.{Vmm}
use neodymium.Vmm.Tree.{IsIdentity}
use neodymium.Elf.Tests.{machine, machine-IsTree, machine-IsIdentity}
use neodymium.Vmm.Clone.{give_up, clone_address_space}
use neodymium.Vmm.Clone.Words.{Spares}
use neodymium.Vmm.Clone.Frame.{clone_address_space-Spares}

-- Eight pages in use. The new table in page 4 still holds an old word, which names page 6.
abbrev full : Vmm
full = record {
  pmm = record { bitmap = λ _. 255; free_count = 0; total_pages = 8 };
  mem = λ p i. if p == 16384 then (if i == 9 then 24577 else 0) else 0;
  current_page_directory = 8192;
  kernel_page_directory = 8192;
}

loses_page : is_used (give_up 20480 16384 full).pmm.bitmap 6 ≡ false
unfolding give_up neodymium.Vmm.destroy_address_space Pmm.free_page Pmm.free_at Pmm.give_page
    Pmm.clear_bit is_used
loses_page = refl

clone_address_space-Spares_example :
    let m = (clone_address_space machine 8192).1.mem in
    Spares machine m × IsIdentity machine.pmm.total_pages (record machine { mem = m })
clone_address_space-Spares_example =
    clone_address_space-Spares machine 8192 machine-IsTree machine-IsIdentity
