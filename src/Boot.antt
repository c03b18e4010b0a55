-- ===== src/Boot.antt =====
-- The entry of the kernel, src/boot/boot.c: the walk over the Multiboot2 tags, which lie in memory, an
-- array of bytes. The walk takes fuel, since a tag of size 0 does not advance it. The assembly that
-- reads the address of the tags and jumps to `kernel_main` is left out. Efi is src/boot/efi_boot.c.
pub mod Tags
pub mod Efi
mod Tests
use neodymium.Base.{
  ℕ, zero, suc, ◌+◌, ◌*◌, ◌^◌, bit_and, bit_or, Bool, ◌&&◌, ◌||◌, Option, none, some, ltb, ◌==◌,
  if◌then◌else◌, add32, sub32, load32,
}

-- The fields of `struct multiboot_info` that the boot code sets.
pub record MultibootInfo : Type 0 where
  pub flags : ℕ
  pub mem_lower : ℕ
  pub mem_upper : ℕ
  pub cmdline : ℕ
  pub mmap_length : ℕ
  pub mmap_addr : ℕ
  pub mmap_entry_size : ℕ
  pub framebuffer_addr : ℕ
  pub framebuffer_pitch : ℕ
  pub framebuffer_width : ℕ
  pub framebuffer_height : ℕ
  pub framebuffer_bpp : ℕ
  pub framebuffer_type : ℕ

pub record Boot : Type 0 where
  pub boot_info : MultibootInfo
  pub module_start : ℕ
  pub module_end : ℕ
  pub mod_count : ℕ

-- The bits of `flags`.
abbrev pub flag_memory : ℕ
flag_memory = 1

abbrev pub flag_cmdline : ℕ
flag_cmdline = 4

abbrev pub flag_mmap : ℕ
flag_mmap = 64

abbrev pub flag_framebuffer : ℕ
flag_framebuffer = 4096

abbrev pub mboot_flag_efi : ℕ
mboot_flag_efi = 0x1000000

abbrev pub sizeof_mb2_info : ℕ
sizeof_mb2_info = 8

abbrev pub sizeof_mb2_tag : ℕ
sizeof_mb2_tag = 8

abbrev pub sizeof_mb2_tag_mmap : ℕ
sizeof_mb2_tag_mmap = 16

abbrev pub tag_type : (ℕ → ℕ) → ℕ → ℕ
tag_type m tag = load32 m tag

abbrev pub tag_size : (ℕ → ℕ) → ℕ → ℕ
tag_size m tag = load32 m (tag + 4)

-- The cases of the loop's body that write to `boot_info`.
pub set_cmdline : MultibootInfo → (tag : ℕ) → MultibootInfo
set_cmdline b tag = record b { flags = bit_or b.flags flag_cmdline; cmdline = tag + sizeof_mb2_tag }

pub set_memory : (ℕ → ℕ) → MultibootInfo → (tag : ℕ) → MultibootInfo
set_memory m b tag = record b {
  flags = bit_or b.flags flag_memory;
  mem_lower = load32 m (tag + 8);
  mem_upper = load32 m (tag + 12);
}

pub set_mmap : (ℕ → ℕ) → MultibootInfo → (tag : ℕ) → MultibootInfo
set_mmap m b tag = record b {
  flags = bit_or b.flags flag_mmap;
  mmap_addr = tag + sizeof_mb2_tag_mmap;
  mmap_length = sub32 (tag_size m tag) sizeof_mb2_tag_mmap;
  mmap_entry_size = load32 m (tag + 8);
}

pub set_framebuffer : (ℕ → ℕ) → MultibootInfo → (tag : ℕ) → MultibootInfo
set_framebuffer m b tag = record b {
  flags = bit_or b.flags flag_framebuffer;
  framebuffer_addr = load32 m (tag + 8) + load32 m (tag + 12) * 2 ^ 32;
  framebuffer_pitch = load32 m (tag + 16);
  framebuffer_width = load32 m (tag + 20);
  framebuffer_height = load32 m (tag + 24);
  framebuffer_bpp = m (tag + 28);
  framebuffer_type = m (tag + 29);
}

-- The body of the loop at a tag.
pub read_tag : (ℕ → ℕ) → Boot → (tag : ℕ) → Boot
read_tag m s tag =
    let type = tag_type m tag in
    let b = s.boot_info in
    if type == 1
    then record s { boot_info = set_cmdline b tag }
    else if type == 4
    then record s { boot_info = set_memory m b tag }
    else if type == 6
    then record s { boot_info = set_mmap m b tag }
    else if type == 3 && s.mod_count == 0
    then record s {
      module_start = load32 m (tag + 8);
      module_end = load32 m (tag + 12);
      mod_count = s.mod_count + 1;
    }
    else if type == 8
    then record s { boot_info = set_framebuffer m b tag }
    else if type == 17 || type == 18
    then record s { boot_info = record b { flags = bit_or b.flags mboot_flag_efi } }
    else s

-- `pos += (tag->size + 7) & ~7`.
pub next_pos : (ℕ → ℕ) → (tag pos : ℕ) → ℕ
next_pos m tag pos = add32 pos (bit_and (add32 (tag_size m tag) 7) 0xFFFFFFF8)

pub walk_tags : (fuel : ℕ) (m : ℕ → ℕ) (info pos : ℕ) → Boot → Option Boot
walk_tags zero m info pos s = none
walk_tags (suc n) m info pos s =
    let tag = info + pos in
    let rest = walk_tags n m info (next_pos m tag pos) (read_tag m s tag) in
    if ltb pos (load32 m info) then (if tag_type m tag == 0 then some s else rest) else some s

-- `_start` up to the jump; `mod_count` starts at 0.
pub start : (fuel : ℕ) (m : ℕ → ℕ) (info : ℕ) → Boot → Option Boot
start fuel m info s = walk_tags fuel m info sizeof_mb2_info (record s { mod_count = 0 })
