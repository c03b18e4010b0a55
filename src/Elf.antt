-- ===== src/Elf.antt =====
-- The ELF loader, src/kernel/elf.c. It reads the image and writes the program through virtual
-- addresses of the current directory: `none` is a page fault, which an access to a page that is not
-- mapped raises. The messages that it prints are left out.
pub mod Access
pub mod Pages
pub mod Copy
pub mod Segment
pub mod Program
pub mod Tests
use neodymium.Base.{
  ℕ, zero, suc, ◌+◌, ◌-◌, ◌*◌, ◌/◌, ◌%◌, ◌^◌, Bool, true, false, Option, none, some, ltb, ◌==◌,
  bit_and, bit_or, not32, add32,
}
use neodymium.Vmm
use neodymium.Vmm.{Vmm, vmm_user, vmm_writable}
use Access.{M, pure, ◌>>=◌, ◌>>◌, load8, load16_at, load32_at, store8, clear_page}

abbrev pub elf_magic : ℕ
elf_magic = 0x464C457F

abbrev pub pt_load : ℕ
pt_load = 1

-- The offsets of the fields of `Elf32_Ehdr` and of `Elf32_Phdr`, which are packed.
abbrev pub e_entry : ℕ
e_entry = 24

abbrev pub e_phoff : ℕ
e_phoff = 28

abbrev pub e_phnum : ℕ
e_phnum = 44

abbrev pub p_offset : ℕ
p_offset = 4

abbrev pub p_vaddr : ℕ
p_vaddr = 8

abbrev pub p_filesz : ℕ
p_filesz = 16

abbrev pub p_memsz : ℕ
p_memsz = 20

abbrev pub sizeof_phdr : ℕ
sizeof_phdr = 32

abbrev pub user_flags : ℕ
user_flags = bit_or vmm_user vmm_writable

-- The `j` loops: `n` bytes from `src` to `dst`, and `n` zeros to `dst`, from index `j` on.
pub copy_bytes : (n j dst src : ℕ) → M (Unit {0})
copy_bytes zero j dst src = pure tt
copy_bytes (suc n) j dst src = do
  b ← load8 (add32 src j)
  store8 (add32 dst j) b
  copy_bytes n (j + 1) dst src

pub clear_bytes : (n j dst : ℕ) → M (Unit {0})
clear_bytes zero j dst = pure tt
clear_bytes (suc n) j dst = do store8 (add32 dst j) 0; clear_bytes n (j + 1) dst

-- `vmm_alloc_page` as a step, with null for failure.
pub alloc_user_page : (virt : ℕ) → M ℕ
alloc_user_page virt v = some (Vmm.alloc_page v virt user_flags)

-- `for (page = start; page < end; page += 0x1000)`; false where a page cannot be had.
pub map_pages : (fuel page end : ℕ) → M Bool
map_pages zero page end = pure true
map_pages (suc fuel) page end = elim (ltb page end) [
  | false ↦ pure true
  | true ↦ do
    p ← alloc_user_page page
    elim (p == 0) [
      | true ↦ pure false
      | false ↦ do clear_page page; map_pages fuel (add32 page 0x1000) end
    ]
]

-- The body of the loop over the program headers, for the header at `phdr`.
pub load_segment : (elf phdr : ℕ) → M Bool
load_segment elf phdr = do
  p_type ← load32_at phdr
  elim (p_type == pt_load) [
    | false ↦ pure true
    | true ↦ do
      vaddr ← load32_at (add32 phdr p_vaddr)
      memsz ← load32_at (add32 phdr p_memsz)
      filesz ← load32_at (add32 phdr p_filesz)
      offset ← load32_at (add32 phdr p_offset)
      let start = bit_and vaddr (not32 0xFFF)
      let end = bit_and (add32 (add32 vaddr memsz) 0xFFF) (not32 0xFFF)
      mapped ← map_pages (2 ^ 20) start end
      elim mapped [
        | false ↦ pure false
        | true ↦ do
          copy_bytes filesz 0 vaddr (add32 elf offset)
          clear_bytes (memsz - filesz) filesz vaddr
          pure true
      ]
  ]

-- The loop over the program headers, from header `i` on; `e_phnum`, which has 16 bits, is read again
-- in each round.
pub load_segments : (fuel i elf phdr : ℕ) → M Bool
load_segments zero i elf phdr = pure true
load_segments (suc fuel) i elf phdr = do
  phnum ← load16_at (add32 elf e_phnum)
  elim (ltb i phnum) [
    | false ↦ pure true
    | true ↦ do
      loaded ← load_segment elf (add32 phdr (i * sizeof_phdr))
      elim loaded [ false ↦ pure false | true ↦ load_segments fuel (i + 1) elf phdr ]
  ]

abbrev pub stack_page : ℕ
stack_page = 0xB0000000

-- The part behind the segments. The stack is cleared through the address that `vmm_alloc_page`
-- returns, which is the physical one.
pub load_stack : (entry : ℕ) → M (Option (ℕ × ℕ))
load_stack entry = do
  stack ← alloc_user_page stack_page
  elim (stack == 0) [
    | true ↦ pure none
    | false ↦ do clear_page stack; pure (some (entry, stack_page + 0x1000))
  ]

-- `elf_load`: the entry and the stack top, or the failure -1.
unfoldable pub elf_load : (elf : ℕ) → M (Option (ℕ × ℕ))
elf_load elf = do
  magic ← load32_at elf
  elim (magic == elf_magic) [
    | false ↦ pure none
    | true ↦ do
      entry ← load32_at (add32 elf e_entry)
      phoff ← load32_at (add32 elf e_phoff)
      loaded ← load_segments (2 ^ 16) 0 elf (add32 elf phoff)
      elim loaded [ false ↦ pure none | true ↦ load_stack entry ]
  ]
