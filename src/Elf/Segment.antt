-- ===== src/Elf/Segment.antt =====
-- A program header of a segment: what the memory holds behind the loop's body.
pub mod Load
use neodymium.Base.{
  ℕ, zero, suc, ◌+◌, ◌-◌, ◌*◌, ◌/◌, ◌%◌, ◌^◌, ◌<◌, ◌≤◌, ◌≡◌, ◌≢◌, ◌⊎◌, sym, ap, refl, ◌∙◌, true,
  false, ◌&&◌, not32, Option, some, arith, ◌==◌, ltb, if◌then◌else◌, Bool-cases, inl, inr, add32,
  bit_and,
}
use neodymium.Base.Bits.{bit_and_page}
use neodymium.Vmm.{Vmm}
use neodymium.Vmm.Tree.{IsTree, IsLeaf, Owns, Maps}
use neodymium.Elf.Access.{M, ◌>>=◌, ◌>>◌, pure, peek, load8, load32_at}
use neodymium.Elf.Access.Bytes.{peek-lt, peek_words}
use neodymium.Elf.Access.Store.{Keeps, Keeps-trans, >>=-some, load8-Owns, Owns-page}
use neodymium.Elf.Copy.{page_at, written, Range, written-words, written-before, written-bytes}
use neodymium.Elf.Copy.Run.{
  OwnsBytes, Source, written-Keeps, copy_bytes-written, clear_bytes-written,
}
use neodymium.Elf.{pt_load, map_pages, copy_bytes, clear_bytes, load_segment}

-- The fields of a program header that the loader reads, for a segment that does not reach the end
-- of the addresses.
pub record Segment : Type 0 where
  pub vaddr : ℕ
  pub memsz : ℕ
  pub filesz : ℕ
  pub offset : ℕ
  pub file_fits : filesz ≤ memsz
  pub in_reach : vaddr + memsz + 0xFFF < 2 ^ 32

-- The first page of a segment and the page behind its last.
abbrev pub first_page : Segment → ℕ
first_page g = g.vaddr / 4096

abbrev pub end_page : Segment → ℕ
end_page g = (g.vaddr + g.memsz + 0xFFF) / 4096

-- The header at `phdr` reads as the segment.
pub record HeaderOf (v : Vmm) (phdr : ℕ) (g : Segment) : Type 0 where
  pub p_type : load32_at phdr v ≡ some (pt_load, v)
  pub p_vaddr : load32_at (add32 phdr 8) v ≡ some (g.vaddr, v)
  pub p_memsz : load32_at (add32 phdr 20) v ≡ some (g.memsz, v)
  pub p_filesz : load32_at (add32 phdr 16) v ≡ some (g.filesz, v)
  pub p_offset : load32_at (add32 phdr 4) v ≡ some (g.offset, v)

-- The file's bytes of the segment lie at `src`, in the pages `from` of the space, which the segment
-- does not cover.
pub record ImageOf (v : Vmm) (g : Segment) (src : ℕ) (from : ℕ → ℕ) : Type 0 where
  pub no_wrap : src + g.filesz ≤ 2 ^ 32
  pub owns : OwnsBytes v src from g.filesz
  pub outside :
      (k : ℕ) → k < g.filesz → ((src + k) / 4096 < first_page g) ⊎ (end_page g ≤ (src + k) / 4096)

-- The byte `k` of the segment in the image.
unfoldable pub image_byte : (v : Vmm) (src : ℕ) (from : ℕ → ℕ) → ℕ → ℕ
image_byte v src from k = peek v.mem (from ((src + k) / 4096)) ((src + k) % 4096)

-- `w` is `v` with the segment loaded: its bytes are those of the image and zeros behind them, and
-- the other pages of the space stay, with their words.
pub record Loaded (v w : Vmm) (g : Segment) (src : ℕ) (from : ℕ → ℕ) : Type 0 where
  pub tree : IsTree w
  pub bytes :
      (k : ℕ)
      → k < g.memsz
      → load8 (g.vaddr + k) w ≡ some (if ltb k g.filesz then image_byte v src from k else 0, w)
  pub owned : (k : ℕ) → k < g.memsz → (p : ℕ) × Owns w (g.vaddr + k) p
  pub kept :
      (b p : ℕ) → (b / 4096 < first_page g) ⊎ (end_page g ≤ b / 4096) → Owns v b p → Owns w b p
  pub maps :
      (b p : ℕ) → (b / 4096 < first_page g) ⊎ (end_page g ≤ b / 4096) → Maps v b p → Maps w b p
  pub leaf : (p : ℕ) → IsLeaf v p → IsLeaf w p
  pub contents : (p x : ℕ) → IsLeaf v p → w.mem p x ≡ v.mem p x
  pub room : v.pmm.free_count ≤ w.pmm.free_count + 2 * (end_page g - first_page g)
