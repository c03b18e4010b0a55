-- ===== src/Elf/Segment/Load.antt =====
-- The body of the loop over the program headers loads a segment.
use neodymium.Base.{
  ℕ, ◌+◌, ◌-◌, ◌*◌, ◌/◌, ◌%◌, ◌^◌, ◌<◌, ◌≤◌, ◌≡◌, sym, ap, refl, ◌∙◌, true, not32, some, arith, ltb,
  if◌then◌else◌, Bool-cases, inl, inr, add32, bit_and,
}
use neodymium.Base.Bits.{bit_and_page}
use neodymium.Vmm.{Vmm}
use neodymium.Vmm.Tree.{IsTree, IsLeaf}
use neodymium.Elf.Access.{◌>>=◌, ◌>>◌, peek}
use neodymium.Elf.Access.Bytes.{peek-lt, peek_words}
use neodymium.Elf.Access.Store.{Keeps, load8-Owns, Owns-page}
use neodymium.Elf.Copy.{page_at, written, Range, written-words, written-before, written-bytes}
use neodymium.Elf.Copy.Run.{
  OwnsBytes, Source, written-Keeps, copy_bytes-written, clear_bytes-written,
}
use neodymium.Elf.Pages.{Filled, MapsRange, map_pages_lem}
use neodymium.Elf.{map_pages, copy_bytes, clear_bytes, load_segment}
use neodymium.Elf.Segment.{Segment, first_page, end_page, HeaderOf, ImageOf, image_byte, Loaded}

-- The state behind the two loops over the bytes.
abbrev after_copy : (v w : Vmm) (g : Segment) (src : ℕ) (from at : ℕ → ℕ) → Vmm
after_copy v w g src from at = record w {
  mem = written g.vaddr at (image_byte v src from) g.filesz 0 w.mem;
}

abbrev after_clear : (u : Vmm) (g : Segment) (at : ℕ → ℕ) → Vmm
after_clear u g at = record u {
  mem = written g.vaddr at (λ k. 0) (g.memsz - g.filesz) g.filesz u.mem;
}

module _ {v w : Vmm} (g : Segment) (f : Filled v w (first_page g) (end_page g)) where
  Filled-OwnsBytes : OwnsBytes w g.vaddr f.at g.memsz
  Filled-OwnsBytes k h =
      Owns-page ((g.vaddr + k) / 4096 * 4096) (g.vaddr + k) (omega arith)
        (f.owns ((g.vaddr + k) / 4096) (omega arith) (omega arith))

  Filled-Range : (b : ℕ → ℕ) → ((k : ℕ) → b k < 256) → Range g.vaddr f.at b g.memsz
  unfolding page_at
  Filled-Range b byte = record {
    byte = λ k h. byte k;
    apart = λ k l hk hl ne. elim (Bool-cases (ltb ((g.vaddr + k) / 4096) ((g.vaddr + l) / 4096))) [
      | inl lt ↦
          f.apart ((g.vaddr + k) / 4096) ((g.vaddr + l) / 4096) (omega arith) (ground (arith, lt))
            (omega arith)
      | inr ge ↦ λ e.
          f.apart ((g.vaddr + l) / 4096) ((g.vaddr + k) / 4096) (omega arith)
            (ground (arith, ge, ne)) (omega arith) (sym e)
    ];
  }

  Filled-Source :
      {src : ℕ} {from : ℕ → ℕ}
      → ImageOf v g src from
      → Source w g.vaddr f.at (image_byte v src from) src from g.filesz
  unfolding image_byte
  Filled-Source {src} {from} i = record {
    owns = λ k h. f.kept (src + k) (from ((src + k) / 4096)) (i.outside k h) (i.owns k h);
    apart = λ k l hk hl.
        f.fresh ((g.vaddr + l) / 4096) (from ((src + k) / 4096)) (omega arith) (omega arith)
          (i.owns k hk).leaf;
    bytes = λ k h.
        peek_words w.mem v.mem (from ((src + k) / 4096)) ((src + k) % 4096)
          (λ x. f.contents (from ((src + k) / 4096)) x (i.owns k h).leaf);
  }

-- The body, from what its parts do.
load_segment_parts :
    (elf phdr : ℕ) {v w u x : Vmm} (g : Segment)
    → HeaderOf v phdr g
    → map_pages (2 ^ 20) (first_page g * 4096) (end_page g * 4096) v ≡ some (true, w)
    → copy_bytes g.filesz 0 g.vaddr (add32 elf g.offset) w ≡ some (tt, u)
    → clear_bytes (g.memsz - g.filesz) g.filesz g.vaddr u ≡ some (tt, x)
    → load_segment elf phdr v ≡ some (true, x)
unfolding load_segment
load_segment_parts elf phdr {v} {w} {u} {x} g h mapped copied cleared =
    let start : bit_and g.vaddr (not32 0xFFF) ≡ first_page g * 4096 =
      bit_and_page g.vaddr (omega (arith, g.in_reach)) in
    let end : bit_and (add32 (add32 g.vaddr g.memsz) 0xFFF) (not32 0xFFF) ≡ end_page g * 4096 =
      bit_and_page (add32 (add32 g.vaddr g.memsz) 0xFFF) (omega arith)
      ∙ omega (arith, g.in_reach) in
    rw
      (
        h.p_type, h.p_vaddr, h.p_memsz, h.p_filesz, h.p_offset, start, end, mapped, copied, cleared,
        load_segment, ◌>>=◌, ◌>>◌,
      )
      refl

-- What the loops over the bytes make of the pages.
module _ {v w : Vmm} (g : Segment) (f : Filled v w (first_page g) (end_page g)) (src : ℕ)
    (from : ℕ → ℕ) where
  copy-Keeps : Keeps w (after_copy v w g src from f.at)
  copy-Keeps =
      written-Keeps g.vaddr f.at (image_byte v src from) {len = g.memsz} (omega (arith, g.in_reach))
        g.filesz 0 f.tree (omega (arith, g.file_fits)) (Filled-OwnsBytes g f)

  copied-OwnsBytes : OwnsBytes (after_copy v w g src from f.at) g.vaddr f.at g.memsz
  copied-OwnsBytes k h =
      copy-Keeps.owns (g.vaddr + k) (f.at ((g.vaddr + k) / 4096)) (Filled-OwnsBytes g f k h)

  clear-Keeps :
      Keeps (after_copy v w g src from f.at) (after_clear (after_copy v w g src from f.at) g f.at)
  clear-Keeps =
      written-Keeps g.vaddr f.at (λ k. 0) {len = g.memsz} (omega (arith, g.in_reach))
        (g.memsz - g.filesz) g.filesz copy-Keeps.tree (omega (arith, g.file_fits)) copied-OwnsBytes

  loaded_byte :
      (k : ℕ)
      → k < g.memsz
      → peek
          (after_clear (after_copy v w g src from f.at) g f.at).mem
          (f.at ((g.vaddr + k) / 4096))
          ((g.vaddr + k) % 4096)
        ≡ (if ltb k g.filesz then image_byte v src from k else 0)
  unfolding page_at
  loaded_byte k h =
      let r0 = Filled-Range g f (λ j. 0) (λ j. omega arith) in
      let r1 =
        Filled-Range g f (image_byte v src from)
          (λ j. unfold image_byte in peek-lt v.mem (from ((src + j) / 4096)) ((src + j) % 4096)) in
      elim (Bool-cases (ltb k g.filesz)) [
        | inl inside ↦ rw inside (
            written-before g.vaddr f.at (λ j. 0) r0 (g.memsz - g.filesz) g.filesz
              (after_copy v w g src from f.at).mem k (ground (arith, inside))
              (omega (arith, g.file_fits))
            ∙ written-bytes g.vaddr f.at (image_byte v src from) r1 g.filesz 0 w.mem
                (omega (arith, g.file_fits)) k (omega arith) (ground (arith, inside)))
        | inr behind ↦ rw behind (
            written-bytes g.vaddr f.at (λ j. 0) r0 (g.memsz - g.filesz) g.filesz
              (after_copy v w g src from f.at).mem (omega (arith, g.file_fits)) k
              (ground (arith, behind)) (omega arith))
      ]

  loaded_words :
      (p x : ℕ)
      → IsLeaf v p
      → (after_clear (after_copy v w g src from f.at) g f.at).mem p x ≡ v.mem p x
  unfolding page_at
  loaded_words p x l =
      written-words g.vaddr f.at (λ k. 0) (g.memsz - g.filesz) g.filesz
        (after_copy v w g src from f.at).mem p x
        (λ k a b. f.fresh ((g.vaddr + k) / 4096) p (omega arith) (omega (arith, g.file_fits)) l)
      ∙ written-words g.vaddr f.at (image_byte v src from) g.filesz 0 w.mem p x
          (λ k a b. f.fresh ((g.vaddr + k) / 4096) p (omega arith) (omega (arith, g.file_fits)) l)
      ∙ f.contents p x l

  Filled-Loaded : Loaded v (after_clear (after_copy v w g src from f.at) g f.at) g src from
  Filled-Loaded = record {
    tree = clear-Keeps.tree;
    bytes = λ k h.
        load8-Owns
          (clear-Keeps.owns (g.vaddr + k) (f.at ((g.vaddr + k) / 4096)) (copied-OwnsBytes k h))
        ∙ ap (λ b. some (b, after_clear (after_copy v w g src from f.at) g f.at)) (loaded_byte k h);
    kept = λ b p out o. clear-Keeps.owns b p (copy-Keeps.owns b p (f.kept b p out o));
    maps = λ b p out o. clear-Keeps.maps b p (copy-Keeps.maps b p (f.maps b p out o));
    owned = λ k h. (
      f.at ((g.vaddr + k) / 4096),
      clear-Keeps.owns (g.vaddr + k) (f.at ((g.vaddr + k) / 4096)) (copied-OwnsBytes k h),
    );
    leaf = λ p l. clear-Keeps.leaf p (copy-Keeps.leaf p (f.leaf p l));
    contents = loaded_words;
    room = f.room;
  }

-- In a tree with two free pages for each page of the segment, and with the image in pages that the
-- segment does not cover, the body for a segment's header gets to its end: the segment's bytes are
-- those of the file and zeros behind them, and the rest of the space stays.
pub load_segment-Loaded :
    (elf phdr : ℕ) (v : Vmm) (g : Segment) (from : ℕ → ℕ)
    → IsTree v
    → HeaderOf v phdr g
    → ImageOf v g (elf + g.offset) from
    → elf + g.offset < 2 ^ 32
    → 2 * (end_page g - first_page g) ≤ v.pmm.free_count
    → (w : Vmm) × (load_segment elf phdr v ≡ some (true, w)) × Loaded v w g (elf + g.offset) from
unfolding MapsRange
load_segment-Loaded elf phdr v g from t h i reach room =
    let (w, mapped, f) =
      map_pages_lem (2 ^ 20) (first_page g) (end_page g) t (omega (arith, g.in_reach))
        (omega (arith, g.in_reach)) room in
    let src = elf + g.offset in
    let u = after_copy v w g src from f.at in
    let copied : copy_bytes g.filesz 0 g.vaddr (add32 elf g.offset) w ≡ some (tt, u) =
      ap (λ a. copy_bytes g.filesz 0 g.vaddr a w) (omega arith)
      ∙ copy_bytes-written g.vaddr f.at (image_byte v src from) {len = g.filesz}
          (omega (arith, g.in_reach, g.file_fits)) src from i.no_wrap g.filesz 0 f.tree
          (omega arith) (λ k hk. Filled-OwnsBytes g f k (omega (arith, g.file_fits)))
          (Filled-Source g f i) in
    let cleared =
      clear_bytes-written g.vaddr f.at (λ k. 0) {len = g.memsz} (omega (arith, g.in_reach))
        (g.memsz - g.filesz) g.filesz {v = u} (λ k. refl) (copy-Keeps g f src from).tree
        (omega (arith, g.file_fits)) (copied-OwnsBytes g f src from) in
    (
      after_clear u g f.at,
      load_segment_parts elf phdr g h mapped copied cleared,
      Filled-Loaded g f src from,
    )
