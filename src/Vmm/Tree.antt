-- ===== src/Vmm/Tree.antt =====
-- A directory with its tables as a tree: the directory and each table that it names are different
-- pages in use. The pages that an address space owns hang on it.
pub mod Rows
pub mod Link
pub mod Grow
pub mod Entry
pub mod Stay
pub mod Alloc
use neodymium.Base.{
  ℕ, ◌+◌, ◌*◌, ◌/◌, ◌%◌, ◌^◌, ◌<◌, ◌≤◌, ◌≡◌, ◌≢◌, true, false, arith, ◌==◌, Bool-cases, inl, inr,
  if◌then◌else◌,
}
use neodymium.Pmm
use neodymium.Pmm.{Pmm, is_used}
use neodymium.Pmm.Page.{IsValid, Allocated, alloc_page-Allocated, Allocated-ne-zero}
use neodymium.Vmm.{Vmm, vmm_present, pd_idx, pt_idx, has, frame}
use neodymium.Vmm.Map.{Points}

-- The page at address `q` is in use.
pub record InUse (p : Pmm) (q : ℕ) : Type 0 where
  pub aligned : q % 4096 ≡ 0
  pub used : is_used p.bitmap (q / 4096) ≡ true

-- The entry `i` of the current directory.
abbrev pub entry : Vmm → ℕ → ℕ
entry v i = v.mem v.current_page_directory i

pub record IsTree (v : Vmm) : Type 0 where
  pub allocator : IsValid v.pmm
  pub home : InUse v.pmm v.current_page_directory
  pub word : (i : ℕ) → entry v i < 2 ^ 32
  pub table : (i : ℕ) → has (entry v i) vmm_present ≡ true → InUse v.pmm (frame (entry v i))
  pub apart :
      (i : ℕ) → has (entry v i) vmm_present ≡ true → frame (entry v i) ≢ v.current_page_directory
  pub distinct :
      (i j : ℕ)
      → i ≢ j
      → has (entry v i) vmm_present ≡ true
      → has (entry v j) vmm_present ≡ true
      → frame (entry v i) ≢ frame (entry v j)

-- A page in use that is neither the directory nor one of its tables.
pub record IsLeaf (v : Vmm) (q : ℕ) : Type 0 where
  pub in_use : InUse v.pmm q
  pub not_home : q ≢ v.current_page_directory
  pub not_table : (j : ℕ) → has (entry v j) vmm_present ≡ true → frame (entry v j) ≢ q

-- The address `a` lies in a page of the space, the page `q` of physical memory.
pub record Owns (v : Vmm) (a q : ℕ) : Type 0 where
  pub present : has (entry v (pd_idx a)) vmm_present ≡ true
  pub page : Points (v.mem (frame (entry v (pd_idx a))) (pt_idx a)) q
  pub leaf : IsLeaf v q

-- The address `a` is mapped to the page `q`, whatever the page is used for.
pub record Maps (v : Vmm) (a q : ℕ) : Type 0 where
  pub present : has (entry v (pd_idx a)) vmm_present ≡ true
  pub page : Points (v.mem (frame (entry v (pd_idx a))) (pt_idx a)) q

pub Owns-Maps : {v : Vmm} {a q : ℕ} → Owns v a q → Maps v a q
Owns-Maps o = record { present = o.present; page = o.page }

-- The current directory maps the first `n` pages of physical memory at their own addresses, so that the
-- kernel's access at the address of such a page reaches the page.
unfoldable pub IsIdentity : (n : ℕ) → Vmm → Type 0
IsIdentity n v = (p : ℕ) → p < n → Maps v (p * 4096) (p * 4096)

-- Where mappings outside the first `n` pages change only, these stay.
pub Maps-IsIdentity :
    {v w : Vmm} (n : ℕ)
    → ((p : ℕ) → p < n → Maps v (p * 4096) (p * 4096) → Maps w (p * 4096) (p * 4096))
    → IsIdentity n v
    → IsIdentity n w
unfolding IsIdentity
Maps-IsIdentity n stays h p lt = stays p lt (h p lt)

-- What an allocation returns: a page that was not in use, and every page in use stays so.
pub record Fresh (p q : Pmm) (addr : ℕ) : Type 0 where
  pub in_use : InUse q addr
  pub not_null : addr ≢ 0
  pub small : addr < 2 ^ 32
  pub other : (b : ℕ) → InUse p b → addr ≢ b
  pub kept : (b : ℕ) → InUse p b → InUse q b
  pub valid : IsValid q
  pub room : q.free_count + 1 ≡ p.free_count

Allocated-Fresh :
    {p q : Pmm} {addr : ℕ} → IsValid p → Allocated p addr q → IsValid q → Fresh p q addr
Allocated-Fresh {p} {q} {addr} v a valid =
    let at_page : addr / 4096 ≡ a.page = omega (arith, a.address) in
    record {
      in_use = record {
        aligned = omega (arith, a.address);
        used = ground (arith, a.used (addr / 4096), at_page);
      };
      not_null = Allocated-ne-zero v a;
      small = omega (arith, a.address, a.in_range, v.small);
      other = λ b u e.
          let same : b / 4096 ≡ a.page = omega (arith, at_page, e) in
          ground (arith, u.used, a.was_free, same);
      kept =
          λ b u. record { aligned = u.aligned; used = ground (arith, a.used (b / 4096), u.used) };
      valid = valid;
      room = a.count;
    }

pub alloc_page-Fresh :
    {p : Pmm} → IsValid p → 0 < p.free_count → Fresh p (Pmm.alloc_page p).1 (Pmm.alloc_page p).0
alloc_page-Fresh v pos = let (a, valid) = alloc_page-Allocated v pos in Allocated-Fresh v a valid
