-- ===== src/Vmm/Init/Tables.antt =====
-- One round of `vmm_init` makes a table and leaves those before it alone.
use mathlib.Core.Path.{subst}
use neodymium.Base.{
  ℕ, ◌+◌, ◌-◌, ◌*◌, ◌%◌, ◌^◌, ◌<◌, ◌≡◌, ◌≢◌, refl, sym, ap, ◌∙◌, ◌⊎◌, inl, inr, true, ◌&&◌, min,
  ltb, ◌==◌, if◌then◌else◌, u32, update2, write_row_lem, arith,
}
use neodymium.Pmm.{Pmm, is_used, page_size}
use neodymium.Pmm.Page.{IsValid, Allocated}
use neodymium.Vmm.{Vmm}
use neodymium.Vmm.Map.{Points, Points-flags, Points-bit_or}
use neodymium.Vmm.Init.{open_entry, fill_table}

-- A page that is not free.
pub record InUse (p : Pmm) (addr : ℕ) : Type 0 where
  pub page : ℕ
  pub address : addr ≡ page * 4096
  pub used : is_used p.bitmap page ≡ true

-- The table at index `c` of the directory, with its entries.
pub record Table (v : Vmm) (total c : ℕ) : Type 0 where
  pub table : ℕ
  pub points : Points (v.mem v.kernel_page_directory c) table
  pub in_use : InUse v.pmm table
  pub apart : table ≢ v.kernel_page_directory
  pub entries :
      (j : ℕ)
      → j < 1024
      → c * 1024 + j < total
      → v.mem table j ≡ open_entry (u32 ((c * 1024 + j) * page_size))

-- The first `n` tables are made.
pub record Mapped (n total : ℕ) (v : Vmm) : Type 0 where
  pub valid : IsValid v.pmm
  pub sized : v.pmm.total_pages ≡ total
  pub dir : InUse v.pmm v.kernel_page_directory
  pub current : v.current_page_directory ≡ v.kernel_page_directory
  pub tables : (c : ℕ) → c < n → Table v total c

pub open_entry-Points :
    (address : ℕ) → address % 4096 ≡ 0 → address < 2 ^ 32 → Points (open_entry address) address
open_entry-Points address aligned small =
    Points-bit_or 4 (omega arith)
      (Points-bit_or 2 (omega arith) (Points-flags address 1 aligned small (omega arith) refl))

-- What was in use stays so, and differs from a page that is allocated.
pub InUse-stays : {p q : Pmm} {addr a : ℕ} → Allocated p addr q → InUse p a → InUse q a
InUse-stays {p} {q} al u = record {
  page = u.page;
  address = u.address;
  used = ground (arith, al.used u.page, u.used);
}

pub InUse-apart : {p q : Pmm} {addr a : ℕ} → Allocated p addr q → InUse p a → a ≢ addr
InUse-apart {p} {q} al u e =
    let same : u.page ≡ al.page = omega (arith, u.address, al.address, e) in
    ground (arith, al.was_free, u.used, ap (λ n. is_used p.bitmap n) same)

pub InUse-new : {p q : Pmm} {addr : ℕ} → Allocated p addr q → InUse q addr
InUse-new al = record {
  page = al.page;
  address = al.address;
  used = ground (arith, al.used al.page);
}

-- The memory behind a round.
abbrev round_mem : Vmm → (pt idx total : ℕ) → ℕ → ℕ → ℕ
round_mem v pt idx total =
    update2 (fill_table v.mem pt (idx * 1024) total) v.kernel_page_directory idx (open_entry pt)

round_mem_lem :
    (v : Vmm) (pt idx total r i : ℕ)
    → round_mem v pt idx total r i ≡ (
        if (r == v.kernel_page_directory) && (i == idx)
        then open_entry pt
        else if (r == pt) && ltb i (min 1024 (total - idx * 1024))
        then open_entry (u32 ((idx * 1024 + i) * page_size))
        else v.mem r i)
unfolding fill_table
round_mem_lem v pt idx total r i =
    ap (λ x. if (r == v.kernel_page_directory) && (i == idx) then open_entry pt else x)
      (write_row_lem v.mem (min 1024 (total - idx * 1024)) pt
        (λ j. open_entry (u32 ((idx * 1024 + j) * page_size))) r i)

-- The state behind a round.
abbrev pub round_state : Vmm → Pmm → (pt idx total : ℕ) → Vmm
round_state v q pt idx total = record v { pmm = q; mem = round_mem v pt idx total }

cell_other :
    (d pt idx cnt r i x y z : ℕ)
    → (r ≢ d) ⊎ (i ≢ idx)
    → r ≢ pt
    → (if (r == d) && (i == idx) then x else if (r == pt) && ltb i cnt then y else z) ≡ z
cell_other d pt idx cnt r i x y z away other = ground (arith, away, other)

cell_new :
    (d pt idx cnt i x y z : ℕ)
    → pt ≢ d
    → i < cnt
    → (if (pt == d) && (i == idx) then x else if (pt == pt) && ltb i cnt then y else z) ≡ y
cell_new d pt idx cnt i x y z apart small = ground (arith, apart, small)

cell_dir : (d idx x y : ℕ) → (if (d == d) && (idx == idx) then x else y) ≡ x
cell_dir d idx x y = ground arith

-- A word that a round leaves alone.
round_other :
    (v : Vmm) (pt idx total r i : ℕ)
    → (r ≢ v.kernel_page_directory) ⊎ (i ≢ idx)
    → r ≢ pt
    → round_mem v pt idx total r i ≡ v.mem r i
round_other v pt idx total r i away other =
    round_mem_lem v pt idx total r i
    ∙ cell_other v.kernel_page_directory pt idx (min 1024 (total - idx * 1024)) r i (open_entry pt)
        (open_entry (u32 ((idx * 1024 + i) * page_size))) (v.mem r i) away other

pub earlier-Table :
    (v : Vmm) (q : Pmm) (pt n total c : ℕ)
    → Mapped n total v
    → Allocated v.pmm pt q
    → c < n
    → Table (round_state v q pt n total) total c
earlier-Table v q pt n total c m al h =
    let t = m.tables c h in
    let kpd = v.kernel_page_directory in
    let entry : round_mem v pt n total kpd c ≡ v.mem kpd c =
      round_other v pt n total kpd c (inr (omega (arith, h))) (InUse-apart al m.dir) in
    record {
      table = t.table;
      points = subst (λ e. Points e t.table) (sym entry) t.points;
      in_use = InUse-stays al t.in_use;
      apart = t.apart;
      entries = λ j small below.
          round_other v pt n total t.table j (inl t.apart) (InUse-apart al t.in_use)
          ∙ t.entries j small below;
    }

pub made-Table :
    (v : Vmm) (q : Pmm) (pt n total : ℕ)
    → Mapped n total v
    → Allocated v.pmm pt q
    → Table (round_state v q pt n total) total n
made-Table v q pt n total m al =
    let kpd = v.kernel_page_directory in
    let apart : pt ≢ kpd = λ e. InUse-apart al m.dir (sym e) in
    let cnt = min 1024 (total - n * 1024) in
    let entry : round_mem v pt n total kpd n ≡ open_entry pt =
      round_mem_lem v pt n total kpd n
      ∙ cell_dir kpd n (open_entry pt) (
          if (kpd == pt) && ltb n cnt
          then open_entry (u32 ((n * 1024 + n) * page_size))
          else v.mem kpd n) in
    record {
      table = pt;
      points =
          subst (λ e. Points e pt) (sym entry)
            (open_entry-Points pt (omega (arith, al.address))
              (omega (arith, al.address, al.in_range, m.valid.small)));
      in_use = InUse-new al;
      apart = apart;
      entries = λ j small below.
          round_mem_lem v pt n total pt j
          ∙ cell_new kpd pt n cnt j (open_entry pt) (open_entry (u32 ((n * 1024 + j) * page_size)))
              (v.mem pt j) apart (omega (arith, small, below));
    }
