-- ===== src/Vmm/Map.antt =====
-- What `vmm_get_phys` finds behind `vmm_map_page`.
use neodymium.Base.{
  ℕ, ◌+◌, ◌*◌, ◌/◌, ◌%◌, ◌^◌, ◌<◌, ◌≡◌, ◌≢◌, ◌∙◌, ap, bit_and, bit_or, true, arith, ◌==◌, ==_refl,
  Bool-cases, inl, inr, update2,
}
use neodymium.Base.Bits.{bit_and-one, bit_and_low, bit_and_page, bit_or_above, bit_or_mod_two}
use neodymium.Vmm.{
  Vmm, pd_idx, pt_idx, has, frame, vmm_present, vmm_user, mark_user, set_entry, get_phys,
}

-- An entry that is present and points to the page at `p`.
pub record Points (e p : ℕ) : Type 0 where
  pub odd : e % 2 ≡ 1
  pub word : e < 2 ^ 32
  pub page : e / 4096 * 4096 ≡ p

pub present-odd : (e : ℕ) → has e vmm_present ≡ (e % 2 == 1)
present-odd e = ground (arith, bit_and-one e)

pub Points-present : {e p : ℕ} → Points e p → has e vmm_present ≡ true
Points-present {e} h = ground (arith, present-odd e, h.odd)

pub Points-frame : {e p : ℕ} → Points e p → frame e ≡ p
Points-frame {e} h = bit_and_page e h.word ∙ h.page

-- Flags change neither.
pub Points-bit_or : {e p : ℕ} (r : ℕ) → r < 4096 → Points e p → Points (bit_or e r) p
Points-bit_or {e} r small h =
    let above : bit_or e r / 4096 ≡ e / 4096 = bit_or_above 12 e r small in
    record {
      odd = omega (arith, bit_or_mod_two e r, h.odd);
      word = omega (arith, above, h.word);
      page = ap (λ q. q * 4096) above ∙ h.page;
    }

-- An address of a page with flags, the lowest of which is the present bit.
pub Points-flags :
    (p r : ℕ) → p % 4096 ≡ 0 → p < 2 ^ 32 → r < 4096 → r % 2 ≡ 1 → Points (bit_or p r) p
Points-flags p r aligned small rs odd =
    let above : bit_or p r / 4096 ≡ p / 4096 = bit_or_above 12 p r rs in
    record {
      odd = omega (arith, bit_or_mod_two p r);
      word = omega (arith, above);
      page = ap (λ q. q * 4096) above ∙ omega arith;
    }

-- The entry that `set_entry` writes.
pub page_entry :
    (phys flags : ℕ)
    → phys < 2 ^ 32
    → flags < 4096
    → Points (bit_or (bit_or (bit_and phys 0xFFFFF000) flags) vmm_present) (phys / 4096 * 4096)
page_entry phys flags hp hf =
    let base : bit_and phys 0xFFFFF000 ≡ phys / 4096 * 4096 = bit_and_page phys hp in
    let a1 : bit_or (bit_and phys 0xFFFFF000) flags / 4096 ≡ bit_and phys 0xFFFFF000 / 4096 =
      bit_or_above 12 (bit_and phys 0xFFFFF000) flags hf in
    let a2 : bit_or (bit_or (bit_and phys 0xFFFFF000) flags) 1 / 4096
        ≡ bit_or (bit_and phys 0xFFFFF000) flags / 4096 =
      bit_or_above 12 (bit_or (bit_and phys 0xFFFFF000) flags) 1 (omega arith) in
    record {
      odd = omega (arith, bit_or_mod_two (bit_or (bit_and phys 0xFFFFF000) flags) 1);
      word = omega (arith, a1, a2, base, hp);
      page = omega (arith, a1, a2, base);
    }

-- A directory entry with a table behind it, which is not the directory.
pub record Ready (v : Vmm) (pd i : ℕ) : Type 0 where
  pub table : ℕ
  pub points : Points (v.mem pd i) table
  pub apart : table ≢ pd

pub get_phys_lem :
    (v : Vmm) (virt table p : ℕ)
    → Points (v.mem v.current_page_directory (pd_idx virt)) table
    → Points (v.mem table (pt_idx virt)) p
    → get_phys v virt ≡ p + virt % 4096
unfolding get_phys
get_phys_lem v virt table p entry page =
    let e1 = Points-present entry in
    let f1 = Points-frame entry in
    rw (e1, f1, Points-present page, Points-frame page) (ap (λ o. p + o) (bit_and_low 12 virt))

pub mark_user-Points :
    (m : ℕ → ℕ → ℕ) (pd i flags table : ℕ)
    → Points (m pd i) table
    → Points (mark_user m pd i flags pd i) table
unfolding mark_user
mark_user-Points m pd i flags table h =
    let marked = Points-bit_or vmm_user (omega arith) h in
    elim (Bool-cases (has flags vmm_user)) [
      | inl user ↦ rw user (rw (==_refl pd, ==_refl i) marked)
      | inr other ↦ rw other h
    ]

pub update2_other : (m : ℕ → ℕ → ℕ) (t j x pd i : ℕ) → t ≢ pd → update2 m t j x pd i ≡ m pd i
update2_other m t j x pd i ne = ground arith

pub update2_same : (m : ℕ → ℕ → ℕ) (t j x : ℕ) → update2 m t j x t j ≡ x
update2_same m t j x = ground arith

pub set_entry-get_phys :
    {v : Vmm} {pd : ℕ} (virt phys flags : ℕ)
    → Ready v pd (pd_idx virt)
    → v.current_page_directory ≡ pd
    → phys < 2 ^ 32
    → flags < 4096
    → get_phys (set_entry v pd virt phys flags) virt ≡ phys / 4096 * 4096 + virt % 4096
unfolding set_entry
set_entry-get_phys {v} {pd} virt phys flags r here hp hf =
    let m1 = mark_user v.mem pd (pd_idx virt) flags in
    let marked = mark_user-Points v.mem pd (pd_idx virt) flags r.table r.points in
    let e = bit_or (bit_or (bit_and phys 0xFFFFF000) flags) vmm_present in
    let m2 = update2 m1 (frame (m1 pd (pd_idx virt))) (pt_idx virt) e in
    let f : frame (m1 pd (pd_idx virt)) ≡ r.table = Points-frame marked in
    let w = record v { mem = m2 } in
    let kept : m2 pd (pd_idx virt) ≡ m1 pd (pd_idx virt) =
      rw f (update2_other m1 r.table (pt_idx virt) e pd (pd_idx virt) r.apart) in
    let wrote : m2 r.table (pt_idx virt) ≡ e = rw f (update2_same m1 r.table (pt_idx virt) e) in
    get_phys_lem w virt r.table (phys / 4096 * 4096) (rw (here, kept) marked)
      (rw wrote (page_entry phys flags hp hf))
