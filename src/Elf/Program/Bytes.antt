-- ===== src/Elf/Program/Bytes.antt =====
-- The bytes of an image as the loader reads them.
use neodymium.Base.{ℕ, ◌+◌, ◌*◌, ◌/◌, ◌%◌, ◌^◌, ◌<◌, ◌≤◌, ◌≡◌, ap, refl, ◌∙◌, some, arith, add32}
use neodymium.Vmm.{Vmm}
use neodymium.Vmm.Tree.{IsLeaf, Owns}
use neodymium.Elf.Access.{◌>>=◌, peek, load8, load16_at, load32_at}
use neodymium.Elf.Access.Bytes.{peek_words, peek-lt}
use neodymium.Elf.Access.Store.{load8-Owns}
use neodymium.Elf.Copy.Run.{OwnsBytes}

abbrev pub word16 : (ℕ → ℕ) → ℕ → ℕ
word16 b o = b o + b (o + 1) * 256

abbrev pub word32 : (ℕ → ℕ) → ℕ → ℕ
word32 b o = word16 b o + word16 b (o + 2) * 65536

-- The space has the `len` bytes of `b` at `elf`, in the pages `from`.
pub record Image (v : Vmm) (elf len : ℕ) (b from : ℕ → ℕ) : Type 0 where
  pub no_wrap : elf + len ≤ 2 ^ 32
  pub owns : OwnsBytes v elf from len
  pub bytes : (k : ℕ) → k < len → peek v.mem (from ((elf + k) / 4096)) ((elf + k) % 4096) ≡ b k

module _ {v : Vmm} {elf len : ℕ} {b from : ℕ → ℕ} (i : Image v elf len b from) where
  load8-Image : (a k : ℕ) → k < len → a ≡ elf + k → load8 a v ≡ some (b k, v)
  load8-Image a k h e =
      ap (λ x. load8 x v) e ∙ load8-Owns (i.owns k h) ∙ ap (λ x. some (x, v)) (i.bytes k h)

  pub Image-byte : (k : ℕ) → k < len → b k < 256
  Image-byte k h = rw (← (i.bytes k h)) (peek-lt v.mem (from ((elf + k) / 4096)) ((elf + k) % 4096))

  pub load16-Image : (a o : ℕ) → o + 2 ≤ len → a ≡ elf + o → load16_at a v ≡ some (word16 b o, v)
  unfolding load16_at
  load16-Image a o h e =
      let low = load8-Image a o (omega arith) e in
      let high = load8-Image (add32 a 1) (o + 1) (omega arith) (omega (arith, i.no_wrap)) in
      rw (low, high, load16_at, ◌>>=◌) refl

  pub load32-Image : (a o : ℕ) → o + 4 ≤ len → a ≡ elf + o → load32_at a v ≡ some (word32 b o, v)
  unfolding load32_at
  load32-Image a o h e =
      let low = load16-Image a o (omega arith) e in
      let high = load16-Image (add32 a 2) (o + 2) (omega arith) (omega (arith, i.no_wrap)) in
      rw (low, high, load32_at, ◌>>=◌) refl

  -- What keeps the image's pages and their words keeps the image.
  pub Image-kept :
      (w : Vmm)
      → ((k : ℕ) → k < len → Owns w (elf + k) (from ((elf + k) / 4096)))
      → ((p x : ℕ) → IsLeaf v p → w.mem p x ≡ v.mem p x)
      → Image w elf len b from
  Image-kept w owns words = record {
    no_wrap = i.no_wrap;
    owns = owns;
    bytes = λ k h.
        peek_words w.mem v.mem (from ((elf + k) / 4096)) ((elf + k) % 4096)
          (λ x. words (from ((elf + k) / 4096)) x (i.owns k h).leaf)
        ∙ i.bytes k h;
  }
