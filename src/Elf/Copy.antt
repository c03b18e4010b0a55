-- ===== src/Elf/Copy.antt =====
-- The loops that write the bytes of a segment.
pub mod Run
use neodymium.Base.{
  ℕ, zero, suc, ◌+◌, ◌-◌, ◌*◌, ◌/◌, ◌%◌, ◌^◌, ◌<◌, ◌≤◌, ◌≡◌, ◌≢◌, sym, ap, refl, ◌∙◌, true, false,
  ◌&&◌, Option, some, arith, ◌==◌, if◌then◌else◌, Bool-cases, inl, inr, add32, update2,
}
use neodymium.Vmm.{Vmm}
use neodymium.Vmm.Tree.{IsTree, Owns}
use neodymium.Elf.Access.{◌>>=◌, ◌>>◌, peek, poke, load8, store8}
use neodymium.Elf.Access.Bytes.{peek-poke, poke_other}
use neodymium.Elf.Access.Store.{Keeps, load8-Owns, store8-Owns, leaf-Keeps}
use neodymium.Elf.{copy_bytes, clear_bytes}

-- The bytes from `dst` on lie in the pages `at`, and become those of `g`.
module _ (dst : ℕ) (at g : ℕ → ℕ) where
  unfoldable pub page_at : ℕ → ℕ
  page_at k = at ((dst + k) / 4096)

  -- The memory behind `n` writes from index `j` on.
  pub written : (n j : ℕ) → (ℕ → ℕ → ℕ) → ℕ → ℕ → ℕ
  written zero j mem = mem
  written (suc n) j mem = written n (j + 1) (poke mem (page_at j) ((dst + j) % 4096) (g j))

  -- The bytes of `g` are bytes, and different pages of the range are different pages.
  pub record Range (len : ℕ) : Type 0 where
    pub byte : (k : ℕ) → k < len → g k < 256
    pub apart :
        (k l : ℕ) → k < len → l < len → (dst + k) / 4096 ≢ (dst + l) / 4096 → page_at k ≢ page_at l

  pub written-words :
      (n j : ℕ) (mem : ℕ → ℕ → ℕ) (p x : ℕ)
      → ((k : ℕ) → j ≤ k → k < j + n → page_at k ≢ p)
      → written n j mem p x ≡ mem p x
  unfolding written
  written-words zero j mem p x h = refl
  written-words (suc n) j mem p x h =
      written-words n (j + 1) (poke mem (page_at j) ((dst + j) % 4096) (g j)) p x
        (λ k a b. h k (omega arith) (omega arith))
      ∙ poke_other mem (page_at j) ((dst + j) % 4096) (g j) p x (h j (omega arith) (omega arith))

  module _ {len : ℕ} (r : Range len) where
    pub written-before :
        (n j : ℕ) (mem : ℕ → ℕ → ℕ) (l : ℕ)
        → l < j
        → j + n ≤ len
        → peek (written n j mem) (page_at l) ((dst + l) % 4096)
          ≡ peek mem (page_at l) ((dst + l) % 4096)
    unfolding written
    written-before zero j mem l before h = refl
    written-before (suc n) j mem l before h =
        written-before n (j + 1) (poke mem (page_at j) ((dst + j) % 4096) (g j)) l (omega arith)
          (omega arith)
        ∙ elim (Bool-cases ((dst + l) / 4096 == (dst + j) / 4096)) [
          | inl same ↦ ground (
            arith,
            peek-poke mem (page_at j) ((dst + j) % 4096) (g j) (page_at l) ((dst + l) % 4096)
                (r.byte j (omega arith)),
          )
          | inr other ↦ ground (
            arith,
            peek-poke mem (page_at j) ((dst + j) % 4096) (g j) (page_at l) ((dst + l) % 4096)
                (r.byte j (omega arith)),
            r.apart l j (omega arith) (omega arith) (ground (arith, other)),
          )
        ]

    pub written-bytes :
        (n j : ℕ) (mem : ℕ → ℕ → ℕ)
        → j + n ≤ len
        → (k : ℕ) → j ≤ k
        → k < j + n
        → peek (written n j mem) (page_at k) ((dst + k) % 4096) ≡ g k
    unfolding written
    written-bytes zero j mem h k lo hi = absurd (omega arith)
    written-bytes (suc n) j mem h k lo hi =
        let mem1 = poke mem (page_at j) ((dst + j) % 4096) (g j) in
        elim (Bool-cases (k == j)) [
          | inr later ↦
              written-bytes n (j + 1) mem1 (omega arith) k (ground (arith, later)) (omega arith)
          | inl now ↦
              let e : j ≡ k = ground (arith, now) in
              rw (← e) (
                written-before n (j + 1) mem1 j (omega arith) (omega arith)
                ∙ ground (
                  arith,
                  peek-poke mem (page_at j) ((dst + j) % 4096) (g j) (page_at j) ((dst + j) % 4096)
                      (r.byte j (omega arith)),
                ))
        ]
