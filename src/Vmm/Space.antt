-- ===== src/Vmm/Space.antt =====
-- A directory that `vmm_map_page_in` works on, and what the call makes of it.
use neodymium.Base.{
  ℕ, ◌+◌, ◌*◌, ◌/◌, ◌%◌, ◌^◌, ◌<◌, ◌≡◌, ◌≢◌, ◌⊎◌, refl, sym, ◌∙◌, bit_and, bit_or, Bool, true,
  false, not, ◌&&◌, arith, ◌==◌, Bool-cases, inl, inr, for_below-keeps, update2,
}
use neodymium.Base.Bits.{bit_and-one, bit_and_high, bit_and_low, bit_and_page}
use neodymium.Pmm
use neodymium.Pmm.{Pmm, is_used}
use neodymium.Pmm.Page.{IsValid, alloc_page-Allocated, alloc_page-eq-zero_iff}
use neodymium.Vmm.{
  Vmm, pd_idx, has, frame, vmm_present, vmm_writable, vmm_user, copy_page, zero_page, own_table,
  make_table, set_entry, and_then, map_page_in, map_page, get_phys,
}
use neodymium.Vmm.Map.{
  Points, Points-present, Ready, present-odd, Points-bit_or, Points-flags, mark_user-Points,
  update2_same, update2_other, set_entry-get_phys,
}

-- The directory is a page in use, and the entry `i` is a word whose table is not the directory.
pub record IsSpace (v : Vmm) (pd i : ℕ) : Type 0 where
  pub allocator : IsValid v.pmm
  pub page : ℕ
  pub address : pd ≡ page * 4096
  pub used : is_used v.pmm.bitmap page ≡ true
  pub word : v.mem pd i < 2 ^ 32
  pub apart : has (v.mem pd i) vmm_present ≡ true → frame (v.mem pd i) ≢ pd

-- A page that the allocator returns is not the directory.
record Fresh (addr pd : ℕ) : Type 0 where
  other : addr ≢ pd
  aligned : addr % 4096 ≡ 0
  small : addr < 2 ^ 32

alloc_page-Fresh :
    {v : Vmm} {pd i : ℕ}
    → IsSpace v pd i
    → (Pmm.alloc_page v.pmm).0 ≢ 0
    → Fresh (Pmm.alloc_page v.pmm).0 pd
alloc_page-Fresh {v} {pd} {i} s ne = elim (Bool-cases (v.pmm.free_count == 0)) [
  | inl full ↦
      absurd (ne ((alloc_page-eq-zero_iff s.allocator).1 (ground (arith, s.allocator.counted))))
  | inr some_free ↦
      let a = (alloc_page-Allocated s.allocator (ground arith)).0 in
      record {
        other = λ e.
            let same : a.page ≡ s.page = omega (arith, a.address, s.address, e) in
            ground (arith, a.was_free, s.used, same);
        aligned = omega (arith, a.address);
        small = omega (arith, a.address, a.in_range, s.allocator.small);
      }
]

-- The result of a part of the call: where it goes on, the directory entry is ready.
abbrev Done : Vmm → ℕ → ℕ → Bool × Vmm → Type 0
Done v pd i (done, w) =
    done ≡ true → Ready w pd i × (w.current_page_directory ≡ v.current_page_directory)

pub copy_page_lem : (m : ℕ → ℕ → ℕ) (to from pd i : ℕ) → to ≢ pd → copy_page m to from pd i ≡ m pd i
unfolding copy_page
copy_page_lem m to from pd i other =
    for_below-keeps (λ a. a pd i ≡ m pd i) 1024 (λ j a. update2 a to j (a from j)) m
      (λ j a e. update2_other a to j (a from j) pd i other ∙ e) refl

pub user_flag : (flags : ℕ) → bit_and flags vmm_user < 4096
user_flag flags = omega (arith, bit_and_high 2 flags 1, bit_and-one (flags / 4))

pub low_bits : (e : ℕ) → bit_and e 0xFFF ≡ e % 4096
low_bits e = bit_and_low 12 e

written-Ready :
    (w : Vmm) (pd i e table : ℕ) (m : ℕ → ℕ → ℕ)
    → table ≢ pd
    → w.mem ≡ update2 m pd i e
    → Points e table
    → Ready w pd i
written-Ready w pd i e table m other eq h = record {
  table = table;
  points = rw eq (rw (update2_same m pd i e) h);
  apart = other;
}

make_table-Done :
    {v : Vmm} {pd i : ℕ} (flags : ℕ) → IsSpace v pd i → Done v pd i (make_table v pd i flags)
unfolding make_table
make_table-Done {v} {pd} {i} flags s = elim (Bool-cases (has (v.mem pd i) vmm_present)) [
  | inl present ↦ rw present λ e. (
    record {
      table = frame (v.mem pd i);
      points = record {
        odd = ground (arith, present-odd (v.mem pd i));
        word = s.word;
        page = sym (bit_and_page (v.mem pd i) s.word);
      };
      apart = s.apart present;
    },
    refl,
  )
  | inr absent ↦ rw absent (elim (Bool-cases ((Pmm.alloc_page v.pmm).0 == 0)) [
    | inl full ↦ rw full λ e. absurd (ground arith)
    | inr got ↦
        let f = alloc_page-Fresh s (ground arith) in
        let new = (Pmm.alloc_page v.pmm).0 in
        let base = Points-flags new vmm_present f.aligned f.small (omega arith) (omega arith) in
        let full =
          Points-bit_or (bit_and flags vmm_user) (user_flag flags)
            (Points-bit_or vmm_writable (omega arith) base) in
        rw got λ e. (
          written-Ready _ pd i
              (bit_or (bit_or (bit_or new vmm_present) vmm_writable) (bit_and flags vmm_user)) new
              (zero_page v.mem new) f.other refl full,
          refl,
        )
  ])
]

-- Where the first part copies a table, the entry is ready; otherwise it leaves the state alone.
own_table-Done :
    {v : Vmm} {pd i : ℕ} (flags : ℕ)
    → IsSpace v pd i
    → (own_table v pd i flags ≡ (true, v)) ⊎ Done v pd i (own_table v pd i flags)
unfolding own_table
own_table-Done {v} {pd} {i} flags s =
    elim (Bool-cases (
      not (pd == v.kernel_page_directory)
      && (has (v.mem pd i) vmm_present && v.mem pd i == v.mem v.kernel_page_directory i))) [
        | inr alone ↦ inl (rw alone refl)
        | inl shared ↦ inr (
            rw shared (elim (Bool-cases ((Pmm.alloc_page v.pmm).0 == 0)) [
              | inl full ↦ rw full λ e. absurd (ground arith)
              | inr got ↦
                  let f = alloc_page-Fresh s (ground arith) in
                  let new = (Pmm.alloc_page v.pmm).0 in
                  let m1 = copy_page v.mem new (frame (v.mem pd i)) in
                  let flag_bits = bit_and (m1 pd i) 0xFFF in
                  let kept : m1 pd i ≡ v.mem pd i =
                    copy_page_lem v.mem new (frame (v.mem pd i)) pd i f.other in
                  let odd : v.mem pd i % 2 ≡ 1 = ground (arith, present-odd (v.mem pd i)) in
                  let points : Points (bit_or new flag_bits) new =
                    Points-flags new flag_bits f.aligned f.small (omega (arith, low_bits (m1 pd i)))
                      (omega (arith, low_bits (m1 pd i), kept, odd)) in
                  let m2 = update2 m1 pd i (bit_or new flag_bits) in
                  rw got λ e. (
                    record {
                      table = new;
                      points =
                          mark_user-Points m2 pd i flags new
                            (rw (update2_same m1 pd i (bit_or new flag_bits)) points);
                      apart = f.other;
                    },
                    refl,
                  )
            ]))
      ]

make_table-Ready :
    {v : Vmm} {pd i : ℕ} (flags : ℕ) → Ready v pd i → make_table v pd i flags ≡ (true, v)
unfolding make_table
make_table-Ready {v} {pd} {i} flags r = rw (Points-present r.points) refl

-- What `vmm_get_phys` finds at the address that a part of the call led to.
abbrev Finds : (virt phys : ℕ) → Bool × Vmm → Type 0
Finds virt phys (done, w) = done ≡ true → get_phys w virt ≡ phys / 4096 * 4096 + virt % 4096

finish-Finds :
    (v : Vmm) (virt phys flags : ℕ) (r : Bool × Vmm)
    → phys < 2 ^ 32
    → flags < 4096
    → Done v v.current_page_directory (pd_idx virt) r
    → Finds virt phys
        (and_then r (λ w. (true, set_entry w v.current_page_directory virt phys flags)))
unfolding and_then
finish-Finds v virt phys flags (false, w) hp hf d = λ e. absurd (ground (arith, e))
finish-Finds v virt phys flags (true, w) hp hf d =
    λ e. set_entry-get_phys virt phys flags (d refl).0 (d refl).1 hp hf

start-Finds :
    (v : Vmm) (virt phys flags : ℕ) (r : Bool × Vmm)
    → phys < 2 ^ 32
    → flags < 4096
    → Done v v.current_page_directory (pd_idx virt) r
    → Finds virt phys (
        and_then r (λ v1.
          and_then
            (make_table v1 v.current_page_directory (pd_idx virt) flags)
            (λ w. (true, set_entry w v.current_page_directory virt phys flags))))
unfolding and_then
start-Finds v virt phys flags (false, w) hp hf d = λ e. absurd (ground (arith, e))
start-Finds v virt phys flags (true, w) hp hf d =
    rw (make_table-Ready flags (d refl).0)
      (λ e. set_entry-get_phys virt phys flags (d refl).0 (d refl).1 hp hf)

-- Let the directory be a page in use, none of whose present entries at this address points to it,
-- the physical address a word and the flags below 4096. Behind a `vmm_map_page` that got to its end,
-- `vmm_get_phys` finds the mapped page: the address is
-- the page's with the offset of the virtual address. This holds whether the directory's table was
-- there, was shared with the kernel, or was missing.
pub map_page-get_phys :
    {v : Vmm} (virt phys flags : ℕ)
    → IsSpace v v.current_page_directory (pd_idx virt)
    → phys < 2 ^ 32
    → flags < 4096
    → (map_page v virt phys flags).0 ≡ true
    → get_phys (map_page v virt phys flags).1 virt ≡ phys / 4096 * 4096 + virt % 4096
unfolding map_page map_page_in and_then
map_page-get_phys {v} virt phys flags s hp hf = elim (own_table-Done {i = pd_idx virt} flags s) [
  | inl alone ↦ rw alone (
      finish-Finds v virt phys flags (make_table v v.current_page_directory (pd_idx virt) flags) hp
        hf (make_table-Done flags s))
  | inr copied ↦
      start-Finds v virt phys flags (own_table v v.current_page_directory (pd_idx virt) flags) hp hf
        copied
]
