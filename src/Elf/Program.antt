-- ===== src/Elf/Program.antt =====
-- A whole image: the headers that its bytes describe, and the run of `elf_load` on it.
pub mod Bytes
pub mod Table
pub mod Run
pub mod Load
use neodymium.Base.{
  ℕ, zero, suc, ◌+◌, ◌-◌, ◌*◌, ◌/◌, ◌%◌, ◌^◌, ◌<◌, ◌≤◌, ◌≡◌, ◌≢◌, ◌⊎◌, inl, inr, sym, ap, refl, ◌∙◌,
  true, false, Option, some, arith, ◌==◌, ltb, if◌then◌else◌, Bool-cases, add32, List, [], ◌∷◌,
  length,
}
use neodymium.Vmm.{Vmm}
use neodymium.Vmm.Tree.{IsTree, IsLeaf, Owns}
use neodymium.Elf.Access.{◌>>=◌, ◌>>◌, pure, peek, load8, load16_at, load32_at}
use neodymium.Elf.Segment.{Segment, first_page, end_page, Loaded}
use neodymium.Elf.{elf_magic, pt_load, load_segment, load_segments, load_stack, elf_load}
use Bytes.{Image, word16, word32}

-- A program header: one that is not loaded, or a segment.
pub data Header : Type 0 where
  skipped : Header
  load : Segment → Header

-- The bytes `b` of the image have the header at offset `o`; the segment's part of the file lies in
-- the image of `len` bytes at `elf`, which the segment's pages do not cover.
pub record IsSegment (b : ℕ → ℕ) (elf len o : ℕ) (g : Segment) : Type 0 where
  pub p_type : word32 b o ≡ pt_load
  pub p_vaddr : word32 b (o + 8) ≡ g.vaddr
  pub p_memsz : word32 b (o + 20) ≡ g.memsz
  pub p_filesz : word32 b (o + 16) ≡ g.filesz
  pub p_offset : word32 b (o + 4) ≡ g.offset
  pub in_file : g.offset + g.filesz ≤ len
  pub offset_in : g.offset < len
  pub apart :
      (k : ℕ) → k < len → ((elf + k) / 4096 < first_page g) ⊎ (end_page g ≤ (elf + k) / 4096)

abbrev pub IsHeader : (b : ℕ → ℕ) (elf len o : ℕ) → Header → Type 0
IsHeader b elf len o skipped = word32 b o ≢ pt_load
IsHeader b elf len o (load g) = IsSegment b elf len o g

-- No page of a segment belongs to a segment of the list.
abbrev pub Apart : Segment → List Header → Type 0
Apart g [] = Unit
Apart g (skipped ∷ hs) = Apart g hs
Apart g (load h ∷ hs) = ((end_page g ≤ first_page h) ⊎ (end_page h ≤ first_page g)) × Apart g hs

abbrev pub ApartNext : Header → List Header → Type 0
ApartNext skipped hs = Unit
ApartNext (load g) hs = Apart g hs

-- The table of headers at offset `o`, in the image, with segments that share no page.
abbrev pub IsTable : (b : ℕ → ℕ) (elf len o : ℕ) → List Header → Type 0
IsTable b elf len o [] = Unit
IsTable b elf len o (h ∷ hs) =
    (o + 32 ≤ len) × IsHeader b elf len o h × ApartNext h hs × IsTable b elf len (o + 32) hs

-- The free pages that the segments need.
abbrev pub need_header : Header → ℕ
need_header skipped = 0
need_header (load g) = 2 * (end_page g - first_page g)

abbrev pub need : List Header → ℕ
need [] = 0
need (h ∷ hs) = need_header h + need hs

-- The memory of `w` holds the segments as the image `b` has them, with zeros behind the file's bytes.
abbrev pub Holds : (w : Vmm) (b : ℕ → ℕ) → Segment → Type 0
Holds w b g =
    (k : ℕ)
    → k < g.memsz
    → load8 (g.vaddr + k) w ≡ some (if ltb k g.filesz then b (g.offset + k) else 0, w)

abbrev pub HoldsHeader : (w : Vmm) (b : ℕ → ℕ) → Header → Type 0
HoldsHeader w b skipped = Unit
HoldsHeader w b (load g) = Holds w b g

abbrev pub HoldsAll : (w : Vmm) (b : ℕ → ℕ) → List Header → Type 0
HoldsAll w b [] = Unit
HoldsAll w b (h ∷ hs) = HoldsHeader w b h × HoldsAll w b hs
