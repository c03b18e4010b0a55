-- ===== src/Elf/Program/Table.antt =====
-- What the table of headers says of the image, and of the pages that no segment covers.
use neodymium.Base.{
  ℕ, ◌+◌, ◌/◌, ◌<◌, ◌≤◌, ◌≡◌, ◌⊎◌, ap, refl, ◌∙◌, some, arith, add32, List, [], ◌∷◌,
}
use neodymium.Vmm.{Vmm}
use neodymium.Elf.Access.{load32_at}
use neodymium.Elf.Segment.{Segment, first_page, end_page, HeaderOf, ImageOf, image_byte}
use neodymium.Elf.Program.Bytes.{Image, word32, load32-Image}
use neodymium.Elf.Program.{Header, skipped, load, IsSegment, Apart, IsTable}

-- The address `a` is in no segment of the list.
abbrev pub Outside : (a : ℕ) → List Header → Type 0
Outside a [] = Unit
Outside a (skipped ∷ hs) = Outside a hs
Outside a (load g ∷ hs) = ((a / 4096 < first_page g) ⊎ (end_page g ≤ a / 4096)) × Outside a hs

pub Apart-Outside :
    (g : Segment) (k : ℕ) (hs : List Header) → k < g.memsz → Apart g hs → Outside (g.vaddr + k) hs
Apart-Outside g k [] h a = tt
Apart-Outside g k (skipped ∷ hs) h a = Apart-Outside g k hs h a
Apart-Outside g k (load s ∷ hs) h a = (ground arith, Apart-Outside g k hs h a.1)

pub IsTable-Outside :
    (b : ℕ → ℕ) (elf len o k : ℕ) (hs : List Header)
    → k < len
    → IsTable b elf len o hs
    → Outside (elf + k) hs
IsTable-Outside b elf len o k [] h t = tt
IsTable-Outside b elf len o k (skipped ∷ hs) h t = IsTable-Outside b elf len (o + 32) k hs h t.3
IsTable-Outside b elf len o k (load g ∷ hs) h t =
    (t.1.apart k h, IsTable-Outside b elf len (o + 32) k hs h t.3)

-- The header and the file's bytes of a segment, read from the image.
module _ {v : Vmm} {b from : ℕ → ℕ} {elf len : ℕ} (i : Image v elf len b from) where
  pub segment-HeaderOf :
      (o : ℕ) (g : Segment) → o + 32 ≤ len → IsSegment b elf len o g → HeaderOf v (elf + o) g
  segment-HeaderOf o g h s =
      let field : (d : ℕ)
          → d + 4 ≤ 32
          → load32_at (add32 (elf + o) d) v ≡ some (word32 b (o + d), v) =
        λ d hd.
          load32-Image i (add32 (elf + o) d) (o + d) (omega arith) (omega (arith, i.no_wrap)) in
      record {
        p_type = load32-Image i (elf + o) o (omega arith) refl ∙ ap (λ x. some (x, v)) s.p_type;
        p_vaddr = field 8 (omega arith) ∙ ap (λ x. some (x, v)) s.p_vaddr;
        p_memsz = field 20 (omega arith) ∙ ap (λ x. some (x, v)) s.p_memsz;
        p_filesz = field 16 (omega arith) ∙ ap (λ x. some (x, v)) s.p_filesz;
        p_offset = field 4 (omega arith) ∙ ap (λ x. some (x, v)) s.p_offset;
      }

  pub segment-ImageOf :
      (o : ℕ) (g : Segment) → IsSegment b elf len o g → ImageOf v g (elf + g.offset) from
  segment-ImageOf o g s =
      let move : (k : ℕ) → elf + (g.offset + k) ≡ elf + g.offset + k = λ k. omega arith in
      record {
        no_wrap = omega (arith, i.no_wrap, s.in_file);
        owns = λ k h. rw (← (move k)) (i.owns (g.offset + k) (omega (arith, s.in_file)));
        outside = λ k h. rw (← (move k)) (s.apart (g.offset + k) (omega (arith, s.in_file)));
      }

  pub segment-byte :
      (o : ℕ) (g : Segment) (k : ℕ)
      → k < g.filesz
      → IsSegment b elf len o g
      → image_byte v (elf + g.offset) from k ≡ b (g.offset + k)
  unfolding image_byte
  segment-byte o g k h s =
      let move : elf + g.offset + k ≡ elf + (g.offset + k) = omega arith in
      rw move (i.bytes (g.offset + k) (omega (arith, s.in_file)))
