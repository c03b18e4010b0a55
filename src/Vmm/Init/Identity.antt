-- ===== src/Vmm/Init/Identity.antt =====
-- Behind `vmm_init` every page of memory is at its own address.
use mathlib.Core.Path.{subst}
use neodymium.Base.{
  ℕ, zero, suc, ◌+◌, ◌*◌, ◌/◌, ◌%◌, ◌^◌, ◌<◌, ◌≤◌, ◌≡◌, refl, sym, ap, ◌∙◌, ◌⊎◌, inl, inr, Bool,
  true, false, Option, none, some, some-injective, ◌==◌, if◌then◌else◌, u32, else_keeps, ==_ne,
  arith,
}
use neodymium.Base.Bits.{bit_and_low}
use neodymium.Pmm
use neodymium.Pmm.{Pmm, is_used, page_size}
use neodymium.Pmm.Page.{IsValid, Allocated, alloc_page-Allocated, alloc_page-pos, Allocated-ne-zero}
use neodymium.Vmm.{Vmm, get_phys, pd_idx, pt_idx, zero_page}
use neodymium.Vmm.Map.{Points, get_phys_lem}
use neodymium.Vmm.Init.Tables.{
  Table, Mapped, InUse-stays, InUse-new, open_entry-Points, round_state, earlier-Table, made-Table,
}
use neodymium.Vmm.Init.{open_entry, add_table, and_table, add_tables, init}

round-Mapped :
    (v : Vmm) (q : Pmm) (pt n total : ℕ)
    → Mapped n total v
    → Allocated v.pmm pt q
    → IsValid q
    → Mapped (suc n) total (round_state v q pt n total)
round-Mapped v q pt n total m al valid = record {
  valid = valid;
  sized = al.same_total ∙ m.sized;
  dir = InUse-stays al m.dir;
  current = m.current;
  tables = λ c h. elim (last_or c n h) [
    | inl below ↦ earlier-Table v q pt n total c m al below
    | inr e ↦
        subst (Table (round_state v q pt n total) total) (sym e) (made-Table v q pt n total m al)
  ];
}
  where
    last_or : (c n : ℕ) → c < suc n → (c < n) ⊎ (c ≡ n)
    last_or c n h = omega (arith, h)

not_null :
    (b : Bool) (o : Option Vmm) (y : Vmm)
    → (if b then none else o) ≡ some y
    → (b ≡ false) × (o ≡ some y)
not_null true o y e = ground (arith, e)
not_null false o y e = (refl, e)

add_table-Mapped :
    (n total : ℕ) (v w : Vmm)
    → Mapped n total v
    → add_table total n v ≡ some w
    → Mapped (suc n) total w
unfolding add_table
add_table-Mapped n total v w m e =
    let (pt, q) = Pmm.alloc_page v.pmm in
    let made = round_state v q pt n total in
    let (ne, same) = not_null (pt == 0) (some made) w e in
    let (al, valid) =
      alloc_page-Allocated m.valid (alloc_page-pos v.pmm (λ z. ground (arith, ne, z))) in
    subst (Mapped (suc n) total) (some-injective made w same)
      (round-Mapped v q pt n total m al valid)

and_table-Mapped :
    (n total : ℕ) (w : Vmm) (o : Option Vmm)
    → ((u : Vmm) → o ≡ some u → Mapped n total u)
    → and_table total n o ≡ some w
    → Mapped (suc n) total w
unfolding and_table
and_table-Mapped n total w none h e = ground (arith, e)
and_table-Mapped n total w (some u) h e = add_table-Mapped n total u w (h u refl) e

add_tables-Mapped :
    (n total : ℕ) (v w : Vmm) → Mapped 0 total v → add_tables n total v ≡ some w → Mapped n total w
unfolding add_tables
add_tables-Mapped zero total v w m e = subst (Mapped 0 total) (some-injective v w e) m
add_tables-Mapped (suc n) total v w m e =
    and_table-Mapped n total w (add_tables n total v) (λ u f. add_tables-Mapped n total v u m f) e

-- The state behind the allocation of the directory.
abbrev begun : Vmm → (pd : ℕ) → Pmm → Vmm
begun v pd q = record v {
  pmm = q;
  mem = zero_page v.mem pd;
  kernel_page_directory = pd;
  current_page_directory = pd;
}

begun-Mapped :
    (v : Vmm) (pd : ℕ) (q : Pmm)
    → IsValid q
    → Allocated v.pmm pd q
    → Mapped 0 v.pmm.total_pages (begun v pd q)
begun-Mapped v pd q valid al = record {
  valid = valid;
  sized = al.same_total;
  dir = InUse-new al;
  current = refl;
  tables = λ c h. absurd (omega (arith, h));
}

init-Mapped :
    (v w : Vmm)
    → IsValid v.pmm
    → init v ≡ some w
    → Mapped ((v.pmm.total_pages + 1023) / 1024) v.pmm.total_pages w
unfolding init
init-Mapped v w valid e =
    let (pd, q) = Pmm.alloc_page v.pmm in
    let total = v.pmm.total_pages in
    let n = (total + 1023) / 1024 in
    let (ne, more) = not_null (pd == 0) (add_tables n total (begun v pd q)) w e in
    let (al, valid1) =
      alloc_page-Allocated valid (alloc_page-pos v.pmm (λ z. ground (arith, ne, z))) in
    add_tables-Mapped n total (begun v pd q) w (begun-Mapped v pd q valid1 al) more

-- A page is enough for a round.
add_table-some :
    (n total : ℕ) (v : Vmm)
    → Mapped n total v
    → 0 < v.pmm.free_count
    → (w : Vmm) × (add_table total n v ≡ some w) × (w.pmm.free_count + 1 ≡ v.pmm.free_count)
unfolding add_table
add_table-some n total v m free =
    let (pt, q) = Pmm.alloc_page v.pmm in
    let (al, valid) = alloc_page-Allocated m.valid free in
    let made = round_state v q pt n total in
    (
      made,
      else_keeps (λ (o : Option Vmm). o ≡ some made) (pt == 0) none
          (==_ne pt 0 (Allocated-ne-zero m.valid al)) refl,
      al.count,
    )

add_tables-some :
    (n total : ℕ) (v : Vmm)
    → Mapped 0 total v
    → n ≤ v.pmm.free_count
    → (w : Vmm) × (add_tables n total v ≡ some w) × (w.pmm.free_count + n ≡ v.pmm.free_count)
unfolding add_tables and_table
add_tables-some zero total v m free = (v, refl, omega arith)
add_tables-some (suc n) total v m free =
    let (u, e, left) = add_tables-some n total v m (omega (arith, free)) in
    let (w, f, less) =
      add_table-some n total u (add_tables-Mapped n total v u m e) (omega (arith, left, free)) in
    (w, ap (and_table total n) e ∙ f, omega (arith, left, less))

init-some :
    (v : Vmm)
    → IsValid v.pmm
    → (v.pmm.total_pages + 1023) / 1024 < v.pmm.free_count
    → (w : Vmm) × (init v ≡ some w)
unfolding init
init-some v valid free =
    let (pd, q) = Pmm.alloc_page v.pmm in
    let total = v.pmm.total_pages in
    let (al, valid1) = alloc_page-Allocated valid (omega (arith, free)) in
    let (w, e, left) =
      add_tables-some ((total + 1023) / 1024) total (begun v pd q) (begun-Mapped v pd q valid1 al)
        (omega (arith, al.count, free)) in
    (
      w,
      else_keeps (λ (o : Option Vmm). o ≡ some w) (pd == 0) none
          (==_ne pd 0 (Allocated-ne-zero valid al)) e,
    )

identity :
    (v w : Vmm) (virt : ℕ)
    → IsValid v.pmm
    → init v ≡ some w
    → virt < v.pmm.total_pages * 4096
    → get_phys w virt ≡ virt
identity v w virt valid e h =
    let m = init-Mapped v w valid e in
    let total = v.pmm.total_pages in
    let small = valid.small in
    let c = virt / 2 ^ 22 in
    let j = virt / 4096 % 1024 in
    let t = m.tables c (omega (arith, h)) in
    let index : pt_idx virt ≡ j = bit_and_low 10 (virt / 4096) in
    let whole : c * 1024 + j ≡ virt / 4096 = omega arith in
    let address = u32 ((c * 1024 + j) * page_size) in
    let is : address ≡ virt / 4096 * 4096 = omega (arith, whole, h, small) in
    let entry : w.mem t.table (pt_idx virt) ≡ open_entry address =
      ap (λ i. w.mem t.table i) index ∙ t.entries j (omega arith) (omega (arith, whole, h)) in
    get_phys_lem w virt t.table address
      (subst (λ d. Points (w.mem d (pd_idx virt)) t.table) (sym m.current) t.points)
      (subst (λ x. Points x address) (sym entry)
        (open_entry-Points address (omega (arith, is)) (omega (arith, is, h, small))))
    ∙ omega (arith, is)

-- If the allocator has a free page for the directory and for each table, one for 1024 pages, then
-- `vmm_init` does not panic, and behind it every address of the pages that the allocator knows is
-- mapped to itself: no table that it made was overwritten by a later one.
pub init-get_phys :
    (v : Vmm)
    → IsValid v.pmm
    → (v.pmm.total_pages + 1023) / 1024 < v.pmm.free_count
    → (w : Vmm) × (init v ≡ some w)
      × ((virt : ℕ) → virt < v.pmm.total_pages * 4096 → get_phys w virt ≡ virt)
init-get_phys v valid free =
    let (w, e) = init-some v valid free in (w, e, λ virt h. identity v w virt valid e h)
