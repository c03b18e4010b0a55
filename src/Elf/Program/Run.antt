-- ===== src/Elf/Program/Run.antt =====
-- The loop over the headers of an image, and `elf_load`.
use neodymium.Base.{
  ℕ, zero, suc, ◌+◌, ◌*◌, ◌%◌, ◌≡◌, ◌≢◌, inl, inr, sym, ap, refl, ◌∙◌, true, false, some, arith,
  ◌==◌, ltb, if◌then◌else◌, Bool-cases, add32, List, ◌∷◌,
}
use neodymium.Vmm.{Vmm}
use neodymium.Vmm.Tree.{IsTree, IsLeaf, Owns, Maps}
use neodymium.Elf.Access.{◌>>=◌, peek, load8, load16_at, load32_at}
use neodymium.Elf.Access.Bytes.{peek_words}
use neodymium.Elf.Access.Store.{load8-Owns}
use neodymium.Elf.Segment.{Segment, image_byte, Loaded}
use neodymium.Elf.{pt_load, load_segment, load_segments}
use neodymium.Elf.Program.Bytes.{Image}
use neodymium.Elf.Program.{Header, load, IsSegment, Apart, HoldsAll}
use neodymium.Elf.Program.Table.{Outside, Apart-Outside, segment-byte}

-- `w` is `v` with the segments loaded.
pub record LoadedAll (v w : Vmm) (b : ℕ → ℕ) (hs : List Header) : Type 0 where
  pub tree : IsTree w
  pub holds : HoldsAll w b hs
  pub kept : (a p : ℕ) → Outside a hs → Owns v a p → Owns w a p
  pub maps : (a p : ℕ) → Outside a hs → Maps v a p → Maps w a p
  pub contents : (p x : ℕ) → IsLeaf v p → w.mem p x ≡ v.mem p x

-- A round of the loop, and its end.
pub load_segments_round :
    (fuel i elf phdr n : ℕ) (v u : Vmm)
    → load16_at (add32 elf 44) v ≡ some (n, v)
    → ltb i n ≡ true
    → load_segment elf (add32 phdr (i * 32)) v ≡ some (true, u)
    → load_segments (suc fuel) i elf phdr v ≡ load_segments fuel (i + 1) elf phdr u
unfolding load_segments
load_segments_round fuel i elf phdr n v u phnum more loaded =
    rw (phnum, more, loaded, load_segments, ◌>>=◌) refl

pub load_segments_end :
    (fuel i elf phdr n : ℕ) (v : Vmm)
    → load16_at (add32 elf 44) v ≡ some (n, v)
    → ltb i n ≡ false
    → load_segments fuel i elf phdr v ≡ some (true, v)
unfolding load_segments
load_segments_end zero i elf phdr n v phnum over = refl
load_segments_end (suc fuel) i elf phdr n v phnum over = rw (phnum, over, load_segments, ◌>>=◌) refl

pub load_segment_skip :
    (elf phdr t : ℕ) (v : Vmm)
    → load32_at phdr v ≡ some (t, v)
    → t ≢ pt_load
    → load_segment elf phdr v ≡ some (true, v)
unfolding load_segment
load_segment_skip elf phdr t v read ne =
    let differ : (t == pt_load) ≡ false = ground (arith, ne) in
    rw (read, differ, load_segment, ◌>>=◌) refl

-- A byte that a page of the space has, read behind the other segments.
holds_byte :
    {u w : Vmm} (a p x : ℕ)
    → Owns u a p
    → Owns w a p
    → ((o : ℕ) → w.mem p o ≡ u.mem p o)
    → load8 a u ≡ some (x, u)
    → load8 a w ≡ some (x, w)
holds_byte {u} {w} a p x o o' same read =
    let both = sym (load8-Owns o) ∙ read in
    let value : peek u.mem p (a % 4096) ≡ x = cc both in
    load8-Owns o' ∙ ap (λ b. some (b, w)) (peek_words w.mem u.mem p (a % 4096) same ∙ value)

module _ {v : Vmm} {b from : ℕ → ℕ} {elf len o : ℕ} {g : Segment} where
  segment_value :
      (k : ℕ)
      → Image v elf len b from
      → IsSegment b elf len o g
      → (if ltb k g.filesz then image_byte v (elf + g.offset) from k else 0)
        ≡ (if ltb k g.filesz then b (g.offset + k) else 0)
  segment_value k i s = elim (Bool-cases (ltb k g.filesz)) [
    | inl inside ↦ rw inside (segment-byte i o g k (ground (arith, inside)) s)
    | inr behind ↦ rw behind refl
  ]

  pub LoadedAll-load :
      {u w : Vmm} {hs : List Header}
      → Image v elf len b from
      → IsSegment b elf len o g
      → Apart g hs
      → Loaded v u g (elf + g.offset) from
      → LoadedAll u w b hs
      → LoadedAll v w b (load g ∷ hs)
  LoadedAll-load {u} {w} {hs} i s apart l r = record {
    tree = r.tree;
    holds = (
      λ k h.
          let (p, owned) = l.owned k h in
          holds_byte (g.vaddr + k) p _ owned
            (r.kept (g.vaddr + k) p (Apart-Outside g k hs h apart) owned)
            (λ x. r.contents p x owned.leaf)
            (l.bytes k h ∙ ap (λ c. some (c, u)) (segment_value k i s)),
      r.holds,
    );
    kept = λ a p out own. r.kept a p out.1 (l.kept a p out.0 own);
    maps = λ a p out m. r.maps a p out.1 (l.maps a p out.0 m);
    contents = λ p x f. r.contents p x (l.leaf p f) ∙ l.contents p x f;
  }
