-- ===== src/Boot/Tests.antt =====
-- A record of 32 bytes with a tag for the memory and the end tag, and a map of two descriptors.
use neodymium.Base.{
  ℕ, ◌≡◌, refl, inr, List, [], ◌∷◌, none, some, arith, get_or, ◌==◌, if◌then◌else◌, ◌*◌,
}
use neodymium.Boot.{MultibootInfo, Boot, start}
use neodymium.Boot.Tags.{read_tags, start-read_tags}
use neodymium.Boot.Efi.{MemoryDescriptor, efi_mmap_max_entries, populate_multiboot}
use neodymium.Boot.Efi.Entries.{AllTell, descriptors, populate_multiboot-AllTell}

abbrev bytes : List ℕ
bytes =
    32 ∷ 0 ∷ 0 ∷ 0 ∷ 0 ∷ 0 ∷ 0 ∷ 0 ∷ 4 ∷ 0 ∷ 0 ∷ 0 ∷ 16 ∷ 0 ∷ 0 ∷ 0 ∷ 128 ∷ 2 ∷ 0 ∷ 0 ∷ 0 ∷ 4 ∷ 0
    ∷ 0 ∷ 0 ∷ 0 ∷ 0 ∷ 0 ∷ 8 ∷ 0 ∷ 0 ∷ 0 ∷ []

abbrev ram : ℕ → ℕ
ram a = get_or bytes a 0

abbrev blank : MultibootInfo
blank = record {
  flags = 0;
  mem_lower = 0;
  mem_upper = 0;
  cmdline = 0;
  mmap_length = 0;
  mmap_addr = 0;
  mmap_entry_size = 0;
  framebuffer_addr = 0;
  framebuffer_pitch = 0;
  framebuffer_width = 0;
  framebuffer_height = 0;
  framebuffer_bpp = 0;
  framebuffer_type = 0;
}

abbrev booting : Boot
booting = record { boot_info = blank; module_start = 0; module_end = 0; mod_count = 0 }

start-read_tags_example :
    start 5 ram 0 booting ≡ some (read_tags ram (record booting { mod_count = 0 }) (8 ∷ []))
start-read_tags_example =
    start-read_tags 5 ram 0 booting (8 ∷ []) (omega arith)
      (
        refl,
        omega arith,
        (λ e. omega arith),
        omega arith,
        omega arith,
        (24, refl, omega arith, omega arith, inr refl),
      )
      (omega arith)

abbrev firmware_map : ℕ → MemoryDescriptor
firmware_map off =
    if off == 0
    then record { type = 7; physical_start = 0x100000000; number_of_pages = 0x200000 }
    else record { type = 5; physical_start = 0x1000; number_of_pages = 16 }

populate_multiboot-AllTell_example :
    AllTell
      (populate_multiboot firmware_map (2 * 48) 48 0x7000 0 none blank).0
      (descriptors efi_mmap_max_entries 2 firmware_map 48 0)
populate_multiboot-AllTell_example =
    populate_multiboot-AllTell 2 firmware_map 48 0x7000 0 none blank (omega arith) (omega arith)
