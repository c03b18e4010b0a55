-- ===== src/Boot/Efi.antt =====
-- src/boot/efi_boot.c: the memory map of the firmware, written as entries of the boot loader's. A
-- `uint64_t` is a number below 2 ^ 64. The descriptors lie in memory, which is the parameter `desc_at`
-- by the offset. The messages are left out.
pub mod Entries
use neodymium.Base.{
  ℕ, zero, suc, ◌+◌, ◌-◌, ◌*◌, ◌/◌, ◌%◌, ◌^◌, ◌≤◌, ◌<◌, ◌≡◌, refl, ◌⊎◌, inl, inr, ◌↔◌, bit_or, Bool,
  ◌&&◌, ◌||◌, List, [], ◌∷◌, Option, none, some, length, map, ltb, ◌==◌, if◌then◌else◌, u32, arith,
}
use neodymium.Boot.{MultibootInfo, flag_memory, flag_mmap, flag_framebuffer}

abbrev pub efi_mmap_max_entries : ℕ
efi_mmap_max_entries = 256

-- The types of memory.
abbrev pub efi_loader_code : ℕ
efi_loader_code = 1

abbrev pub efi_loader_data : ℕ
efi_loader_data = 2

abbrev pub efi_boot_services_code : ℕ
efi_boot_services_code = 3

abbrev pub efi_boot_services_data : ℕ
efi_boot_services_data = 4

abbrev pub efi_conventional_memory : ℕ
efi_conventional_memory = 7

abbrev pub efi_acpi_reclaim_memory : ℕ
efi_acpi_reclaim_memory = 9

abbrev pub efi_acpi_memory_nvs : ℕ
efi_acpi_memory_nvs = 10

-- The fields of `efi_memory_descriptor` that are read.
pub record MemoryDescriptor : Type 0 where
  pub type : ℕ
  pub physical_start : ℕ
  pub number_of_pages : ℕ

-- `struct multiboot_mmap_entry`.
pub record MmapEntry : Type 0 where
  pub addr_low : ℕ
  pub addr_high : ℕ
  pub len_low : ℕ
  pub len_high : ℕ
  pub type : ℕ
  pub reserved : ℕ

-- The mode of the graphics output protocol, with the fields of its `info`.
pub record GraphicsMode : Type 0 where
  pub horizontal_resolution : ℕ
  pub vertical_resolution : ℕ
  pub pixels_per_scan_line : ℕ

pub type_to_mboot : ℕ → ℕ
type_to_mboot t =
    if t == efi_conventional_memory || (t == efi_loader_code || t == efi_loader_data)
    then 1
    else if t == efi_boot_services_code || t == efi_boot_services_data
    then 1
    else if t == efi_acpi_reclaim_memory
    then 3
    else if t == efi_acpi_memory_nvs
    then 4
    else 2

-- `desc->number_of_pages * 4096`.
abbrev pub bytes_of : MemoryDescriptor → ℕ
bytes_of d = d.number_of_pages * 4096 % 2 ^ 64

pub entry_of : MemoryDescriptor → MmapEntry
entry_of d = record {
  addr_low = u32 d.physical_start;
  addr_high = d.physical_start / 2 ^ 32;
  len_low = u32 (bytes_of d);
  len_high = bytes_of d / 2 ^ 32;
  type = type_to_mboot d.type;
  reserved = 0;
}

-- The loop with room for `n` more entries: the entries it writes, and `total_mem`.
pub populate_loop :
    (n : ℕ) (desc_at : ℕ → MemoryDescriptor) (mmap_size desc_size off total : ℕ)
    → List MmapEntry × ℕ
populate_loop zero desc_at mmap_size desc_size off total = ([], total)
populate_loop (suc n) desc_at mmap_size desc_size off total =
    let d = desc_at off in
    let total1 =
      if d.type == efi_conventional_memory then (total + bytes_of d) % 2 ^ 64 else total in
    let (entries, all) =
      populate_loop n desc_at mmap_size desc_size ((off + desc_size) % 2 ^ 64) total1 in
    if ltb off mmap_size then (entry_of d ∷ entries, all) else ([], total)

-- The framebuffer, where `gop`, its mode and the mode's `info` are not null.
pub set_gop : MultibootInfo → (frame_buffer_base : ℕ) → Option GraphicsMode → MultibootInfo
set_gop out base none = out
set_gop out base (some info) = record out {
  flags = bit_or out.flags flag_framebuffer;
  framebuffer_addr = base;
  framebuffer_pitch = u32 (info.pixels_per_scan_line * 4);
  framebuffer_width = info.horizontal_resolution;
  framebuffer_height = info.vertical_resolution;
  framebuffer_bpp = 32;
  framebuffer_type = 2;
}

-- `efi_populate_multiboot`; `buf` is the address of the buffer of the entries, which have 24 bytes.
pub populate_multiboot :
    (desc_at : ℕ → MemoryDescriptor) (mmap_size desc_size buf base : ℕ)
    → Option GraphicsMode
    → MultibootInfo
    → List MmapEntry × MultibootInfo
populate_multiboot desc_at mmap_size desc_size buf base gop out =
    let (entries, total) = populate_loop efi_mmap_max_entries desc_at mmap_size desc_size 0 0 in
    let upper = if ltb 1048576 total then u32 ((total - 1048576) / 1024) else 0 in
    let out1 = record out {
      flags = bit_or flag_memory flag_mmap;
      mem_upper = upper;
      mmap_addr = buf;
      mmap_length = length entries * 24;
      mmap_entry_size = 24;
    } in
    (entries, set_gop out1 base gop)
