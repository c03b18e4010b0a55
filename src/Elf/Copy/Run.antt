-- ===== src/Elf/Copy/Run.antt =====
-- The loops on a space that owns the pages: they do not fault, and what they leave.
use neodymium.Base.{
  ℕ, zero, suc, ◌+◌, ◌/◌, ◌%◌, ◌^◌, ◌<◌, ◌≤◌, ◌≡◌, ◌≢◌, sym, ap, refl, ◌∙◌, some, arith, add32,
}
use neodymium.Vmm.{Vmm}
use neodymium.Vmm.Tree.{IsTree, Owns}
use neodymium.Elf.Access.{◌>>◌, peek, poke, load8, store8}
use neodymium.Elf.Access.Bytes.{poke_other, peek_words}
use neodymium.Elf.Access.Store.{Keeps, Keeps-trans, >>=-some, load8-Owns, store8-Owns, leaf-Keeps}
use neodymium.Elf.{copy_bytes, clear_bytes}
use neodymium.Elf.Copy.{page_at, written}

-- The space owns the addresses from `base` on.
abbrev pub OwnsBytes : (v : Vmm) (base : ℕ) (at : ℕ → ℕ) (len : ℕ) → Type 0
OwnsBytes v base at len = (k : ℕ) → k < len → Owns v (base + k) (at ((base + k) / 4096))

-- The image has the bytes of `g` from `src` on, in pages `from` that are none of the `at`.
pub record Source (v : Vmm) (dst : ℕ) (at g : ℕ → ℕ) (src : ℕ) (from : ℕ → ℕ) (len : ℕ)
    : Type 0 where
  pub owns : OwnsBytes v src from len
  pub apart : (k l : ℕ) → k < len → l < len → at ((dst + l) / 4096) ≢ from ((src + k) / 4096)
  pub bytes : (k : ℕ) → k < len → peek v.mem (from ((src + k) / 4096)) ((src + k) % 4096) ≡ g k

module _ (dst : ℕ) (at g : ℕ → ℕ) {len : ℕ} (no_wrap : dst + len ≤ 2 ^ 32) where
  poke-Keeps :
      (j : ℕ) {v : Vmm}
      → IsTree v
      → j < len
      → OwnsBytes v dst at len
      → Keeps v (record v { mem = poke v.mem (page_at dst at g j) ((dst + j) % 4096) (g j) })
  unfolding page_at
  poke-Keeps j {v} t h own =
      leaf-Keeps _ t (own j h).leaf
        (λ p x ne. poke_other v.mem (at ((dst + j) / 4096)) ((dst + j) % 4096) (g j) p x ne)

  pub written-Keeps :
      (n j : ℕ) {v : Vmm}
      → IsTree v
      → j + n ≤ len
      → OwnsBytes v dst at len
      → Keeps v (record v { mem = written dst at g n j v.mem })
  unfolding written
  written-Keeps zero j t h own = record {
    tree = t;
    same_pages = refl;
    owns = λ b p o. o;
    maps = λ b p o. o;
    leaf = λ p l. l;
  }
  written-Keeps (suc n) j {v} t h own =
      let one = poke-Keeps j t (omega arith) own in
      Keeps-trans one (
        written-Keeps n (j + 1)
          {v = record v { mem = poke v.mem (page_at dst at g j) ((dst + j) % 4096) (g j) }} one.tree
          (omega arith) (λ k hk. one.owns (dst + k) (at ((dst + k) / 4096)) (own k hk)))

  -- The zeros behind the bytes of the file.
  pub clear_bytes-written :
      (n j : ℕ) {v : Vmm}
      → ((k : ℕ) → g k ≡ 0)
      → IsTree v
      → j + n ≤ len
      → OwnsBytes v dst at len
      → clear_bytes n j dst v ≡ some (tt, record v { mem = written dst at g n j v.mem })
  unfolding clear_bytes written page_at
  clear_bytes-written zero j z t h own = refl
  clear_bytes-written (suc n) j {v} z t h own =
      let one = poke-Keeps j t (omega arith) own in
      let here : add32 dst j ≡ dst + j = omega arith in
      let u : Vmm = record v { mem = poke v.mem (page_at dst at g j) ((dst + j) % 4096) (g j) } in
      let rest =
        clear_bytes-written n (j + 1) {v = u} z one.tree (omega arith)
          (λ k hk. one.owns (dst + k) (at ((dst + k) / 4096)) (own k hk)) in
      let stored : store8 (add32 dst j) 0 v ≡ some (tt, u) =
        ap (λ a. store8 a 0 v) here
        ∙ ap (λ b. store8 (dst + j) b v) (sym (z j))
        ∙ store8-Owns (g j) (own j (omega arith)) in
      >>=-some (store8 (add32 dst j) 0) (λ _. clear_bytes n (j + 1) dst) v stored ∙ rest

  -- The bytes of the file, from the pages `from` of the image, which the loop does not write.
  module _ (src : ℕ) (from : ℕ → ℕ) (no_wrap' : src + len ≤ 2 ^ 32) where
    poke-Source :
        (j : ℕ) {v : Vmm}
        → IsTree v
        → j < len
        → OwnsBytes v dst at len
        → Source v dst at g src from len
        → Source
            (record v { mem = poke v.mem (page_at dst at g j) ((dst + j) % 4096) (g j) })
            dst
            at
            g
            src
            from
            len
    unfolding page_at
    poke-Source j {v} t h own s = record {
      owns = λ k hk. (poke-Keeps j t h own).owns (src + k) (from ((src + k) / 4096)) (s.owns k hk);
      apart = s.apart;
      bytes = λ k hk.
          peek_words _ v.mem (from ((src + k) / 4096)) ((src + k) % 4096) (λ x.
            poke_other v.mem (page_at dst at g j) ((dst + j) % 4096) (g j) (from ((src + k) / 4096))
              x (s.apart k j hk h))
          ∙ s.bytes k hk;
    }

    pub copy_bytes-written :
        (n j : ℕ) {v : Vmm}
        → IsTree v
        → j + n ≤ len
        → OwnsBytes v dst at len
        → Source v dst at g src from len
        → copy_bytes n j dst src v ≡ some (tt, record v { mem = written dst at g n j v.mem })
    unfolding copy_bytes written page_at
    copy_bytes-written zero j t h own s = refl
    copy_bytes-written (suc n) j {v} t h own s =
        let one = poke-Keeps j t (omega arith) own in
        let u : Vmm = record v { mem = poke v.mem (page_at dst at g j) ((dst + j) % 4096) (g j) } in
        let rest =
          copy_bytes-written n (j + 1) {v = u} one.tree (omega arith)
            (λ k hk. one.owns (dst + k) (at ((dst + k) / 4096)) (own k hk))
            (poke-Source j t (omega arith) own s) in
        let loaded : load8 (add32 src j) v ≡ some (g j, v) =
          ap (λ a. load8 a v) (omega arith)
          ∙ load8-Owns (s.owns j (omega arith))
          ∙ ap (λ b. some (b, v)) (s.bytes j (omega arith)) in
        let stored : store8 (add32 dst j) (g j) v ≡ some (tt, u) =
          ap (λ a. store8 a (g j) v) (omega arith) ∙ store8-Owns (g j) (own j (omega arith)) in
        >>=-some (load8 (add32 src j)) (λ b. store8 (add32 dst j) b >> copy_bytes n (j + 1) dst src)
          v loaded
        ∙ >>=-some (store8 (add32 dst j) (g j)) (λ _. copy_bytes n (j + 1) dst src) v stored
        ∙ rest
