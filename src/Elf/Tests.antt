-- ===== src/Elf/Tests.antt =====
-- A small image in a small machine: 84 bytes at 0x4000, with one segment of twelve bytes, four of
-- which stand in the file.
use neodymium.Base.{
  ℕ, ◌+◌, ◌*◌, ltb, ◌/◌, ◌^◌, ◌≡◌, refl, sym, ◌∙◌, true, arith, ◌==◌, List, [], ◌∷◌, get_or,
  Bool-cases, inl, inr, if◌then◌else◌,
}
use neodymium.Base.Bits.{bit_and_low}
use neodymium.Pmm.{is_used}
use neodymium.Pmm.Count.{free_below}
use neodymium.Vmm
use neodymium.Vmm.{Vmm, has, frame, vmm_present, pd_idx, pt_idx}
use neodymium.Vmm.Tree.{entry, IsTree, IsIdentity}
use neodymium.Vmm.Tree.Alloc.{Got, alloc_page-Got}
use neodymium.Elf.Segment.{Segment}
use neodymium.Elf.Pages.{MapsAll, map_pages-MapsAll}

abbrev file : List ℕ
file =
    127 ∷ 69 ∷ 76 ∷ 70 ∷ 0 ∷ 0 ∷ 0 ∷ 0 ∷ 0 ∷ 0 ∷ 0 ∷ 0 ∷ 0 ∷ 0 ∷ 0 ∷ 0 ∷ 2 ∷ 0 ∷ 3 ∷ 0 ∷ 1 ∷ 0 ∷ 0
    ∷ 0 ∷ 16 ∷ 0 ∷ 64 ∷ 0 ∷ 52 ∷ 0 ∷ 0 ∷ 0 ∷ 0 ∷ 0 ∷ 0 ∷ 0 ∷ 0 ∷ 0 ∷ 0 ∷ 0 ∷ 52 ∷ 0 ∷ 32 ∷ 0 ∷ 1 ∷ 0
    ∷ 0 ∷ 0 ∷ 0 ∷ 0 ∷ 0 ∷ 0 ∷ 1 ∷ 0 ∷ 0 ∷ 0 ∷ 0 ∷ 0 ∷ 0 ∷ 0 ∷ 16 ∷ 0 ∷ 64 ∷ 0 ∷ 0 ∷ 0 ∷ 0 ∷ 0 ∷ 4
    ∷ 0 ∷ 0 ∷ 0 ∷ 12 ∷ 0 ∷ 0 ∷ 0 ∷ 7 ∷ 0 ∷ 0 ∷ 0 ∷ 0 ∷ 16 ∷ 0 ∷ 0 ∷ []

abbrev file_byte : ℕ → ℕ
file_byte k = get_or file k 0

-- The words of the page that has the file.
abbrev file_word : ℕ → ℕ
file_word i =
    file_byte (4 * i)
    + file_byte (4 * i + 1) * 256
    + file_byte (4 * i + 2) * 65536
    + file_byte (4 * i + 3) * 16777216

-- Page 2 is the directory, page 3 its only table, and page 4 has the file. The table maps the
-- eight pages of memory at their own addresses.
abbrev pub machine : Vmm
machine = record {
  pmm = record { bitmap = λ _. 29; free_count = 4; total_pages = 8 };
  mem = λ p i.
      if p == 8192
      then (if i == 0 then 12291 else 0)
      else if p == 12288
      then (if ltb i 8 then i * 4096 + 3 else 0)
      else if p == 16384
      then file_word i
      else 0;
  current_page_directory = 8192;
  kernel_page_directory = 8192;
}

-- The entries but the first are absent.
first_entry : (i : ℕ) → has (entry machine i) vmm_present ≡ true → i ≡ 0
first_entry i on = elim (Bool-cases (i == 0)) [
  | inl here ↦ ground (arith, here)
  | inr there ↦ absurd (ground (arith, on, there))
]

pub machine-IsTree : IsTree machine
unfolding is_used free_below
machine-IsTree = record {
  allocator = record { counted = refl; small = omega arith; zero_used = refl };
  home = record { aligned = refl; used = refl };
  word = λ i. ground arith;
  table = λ i on. rw (first_entry i on) record { aligned = refl; used = refl };
  apart = λ i on. rw (first_entry i on) (omega arith);
  distinct = λ i j ne on_i on_j e. ne (first_entry i on_i ∙ sym (first_entry j on_j));
}

pub machine-IsIdentity : IsIdentity machine.pmm.total_pages machine
unfolding IsIdentity
machine-IsIdentity p lt =
    let page : pd_idx (p * 4096) ≡ 0 = omega arith in
    let slot : pt_idx (p * 4096) ≡ p = bit_and_low 10 (p * 4096 / 2 ^ 12) ∙ omega arith in
    let low : ltb p 8 ≡ true = ground arith in
    record {
      present = rw page refl;
      page =
          rw (page, slot, low) record { odd = omega arith; word = omega arith; page = omega arith };
    }

abbrev segment : Segment
segment = record {
  vaddr = 0x400010;
  memsz = 12;
  filesz = 4;
  offset = 0;
  file_fits = omega arith;
  in_reach = omega arith;
}

map_pages-MapsAll_example : MapsAll machine 2 1024 1026
map_pages-MapsAll_example =
    map_pages-MapsAll 2 1024 1026 machine-IsTree machine-IsIdentity (omega arith) (omega arith)
      (omega arith) (omega arith)

alloc_page-Got_example :
    Got machine 0x400000 (Vmm.alloc_page machine 0x400000 6)
    × IsIdentity machine.pmm.total_pages (Vmm.alloc_page machine 0x400000 6).1
alloc_page-Got_example =
    alloc_page-Got 0x400000 6 machine-IsTree machine-IsIdentity (omega arith) (omega arith)
      (omega arith)
