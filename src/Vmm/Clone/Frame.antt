-- ===== src/Vmm/Clone/Frame.antt =====
-- The copy of an address space writes only to pages that were free.
use neodymium.Base.{
  ℕ, ◌*◌, ◌/◌, ◌≡◌, refl, Bool, true, false, not, ◌&&◌, ◌||◌, bit_and, bit_or, ◌==◌, if◌then◌else◌,
  for_below, for_below-keeps, update2, if_keeps, if_split, arith,
}
use neodymium.Pmm
use neodymium.Pmm.{Pmm}
use neodymium.Pmm.Page.{IsValid}
use neodymium.Vmm.{
  pd_idx, pt_idx, Vmm, vmm_present, has, frame, create_address_space, destroy_address_space,
}
use neodymium.Vmm.Tree
use neodymium.Vmm.Tree.{entry, IsTree, IsIdentity}
use neodymium.Vmm.Clone.Words.{
  Spares, IsNew, IsOnWay, Result, write-Spares, allocated, with_words, unless_failed-Result,
  copy_table-Result,
}
use neodymium.Vmm.Clone.{
  unless_failed, copy_table, give_up, enter_table, clone_entry, cloned, clone_address_space,
}

destroy-Spares : (v w : Vmm) (pd : ℕ) → Spares v w.mem → Spares v (destroy_address_space w pd).mem
unfolding destroy_address_space
destroy-Spares v w pd s =
    if_keeps (λ (u : Vmm). Spares v u.mem) (pd == 0 || pd == w.kernel_page_directory) s s

enter_table-Result :
    (v : Vmm) (pd new_pd new_pt i : ℕ) (r : Bool × Vmm)
    → IsNew v new_pd
    → Result v r
    → Result v (enter_table pd new_pd new_pt i r)
unfolding enter_table give_up
enter_table-Result v pd new_pd new_pt i (true, w) new h =
    with_words v w (update2 w.mem new_pd i (bit_or new_pt (bit_and (w.mem pd i) 0xFFF))) h
      (write-Spares v w.mem new_pd i (bit_or new_pt (bit_and (w.mem pd i) 0xFFF)) new h.spares)
enter_table-Result v pd new_pd new_pt i (false, w) new h =
    let pmm1 =
      for_below 1024
        (λ j p.
          if has (w.mem new_pt j) vmm_present then Pmm.free_page p (frame (w.mem new_pt j)) else p)
        w.pmm in
    destroy-Spares v (record w { pmm = Pmm.free_page pmm1 new_pt }) new_pd h

clone_entry-Result :
    (v : Vmm) (pd new_pd i : ℕ) (w : Vmm)
    → IsNew v new_pd
    → IsOnWay v w
    → Result v (clone_entry pd new_pd i w)
unfolding clone_entry
clone_entry-Result v pd new_pd i w new h =
    let e = w.mem pd i in
    let k = w.mem w.kernel_page_directory i in
    let (new_pt, q) = Pmm.alloc_page w.pmm in
    let w1 = record w { pmm = q } in
    if_keeps (Result v) (not (has e vmm_present)) h (
      if_keeps (Result v) (has k vmm_present && e == k) h (
        if_split (Result v) (new_pt == 0) (λ z. destroy-Spares v w1 new_pd h.spares)
          (λ ne.
            let (fresh, on) = allocated v w h ne in
            enter_table-Result v pd new_pd new_pt i (copy_table (frame e) new_pt w1) new
              (copy_table-Result v (frame e) new_pt w1 fresh on))))

cloned-Result :
    (v : Vmm) (pd new_pd : ℕ) (w : Vmm)
    → Spares v w.mem
    → ((new_pd == 0) ≡ false → IsNew v new_pd × IsOnWay v w)
    → Result v (cloned pd (new_pd, w))
unfolding cloned
cloned-Result v pd new_pd w s h =
    if_split (Result v) (new_pd == 0) (λ z. s)
      (λ ne.
        for_below-keeps (Result v) 1024 (λ i r. unless_failed (clone_entry pd new_pd i) r) (true, w)
          (λ i r k.
            unless_failed-Result v (clone_entry pd new_pd i) r
              (λ u on. clone_entry-Result v pd new_pd i u (h ne).0 on) k)
          (h ne).1)

abbrev Created : Vmm → ℕ × Vmm → Type 0
Created v r = Spares v r.1.mem × ((r.0 == 0) ≡ false → IsNew v r.0 × IsOnWay v r.1)

create-Created : (v : Vmm) → IsValid v.pmm → Created v (create_address_space v)
unfolding create_address_space
create-Created v valid =
    let (pd, q) = Pmm.alloc_page v.pmm in
    let start : IsOnWay v v = record { valid = valid; stays = λ r u. u; spares = λ r u i. refl } in
    let entry = λ (i : ℕ) (m : ℕ → ℕ → ℕ).
      (if has (m v.kernel_page_directory i) vmm_present then m v.kernel_page_directory i else 0) in
    if_split (Created v) (pd == 0) (λ z. ((λ r u i. refl), λ n. ground (arith, z, n)))
      (λ ne.
        let (fresh, on) = allocated v v start ne in
        let spared : Spares v (for_below 1024 (λ i m. update2 m pd i (entry i m)) v.mem) =
          for_below-keeps (Spares v) 1024 (λ i m. update2 m pd i (entry i m)) v.mem
            (λ i m h. write-Spares v m pd i (entry i m) fresh h) start.spares in
        (
          spared,
          λ n. (
            fresh,
            with_words v (record v { pmm = q })
                (for_below 1024 (λ i m. update2 m pd i (entry i m)) v.mem) on spared,
          ),
        ))

Result-Spares : (v : Vmm) (r : Bool × Vmm) → Result v r → Spares v r.1.mem
Result-Spares v (true, w) h = h.spares
Result-Spares v (false, w) h = h

-- A page that the tree uses keeps its words.
tree_words :
    (v : Vmm) {m : ℕ → ℕ → ℕ} {q : ℕ}
    → Spares v m
    → Tree.InUse v.pmm q
    → (i : ℕ) → m q i ≡ v.mem q i
tree_words v {q = q} s u =
    let at : q ≡ q / 4096 * 4096 = omega (arith, u.aligned) in
    s q record { page = q / 4096; address = at; used = u.used }

Spares-IsIdentity :
    {v : Vmm} (n : ℕ) (m : ℕ → ℕ → ℕ)
    → IsTree v
    → Spares v m
    → IsIdentity n v
    → IsIdentity n (record v { mem = m })
unfolding IsIdentity
Spares-IsIdentity {v} n m t s h p lt =
    let a = p * 4096 in
    let maps = h p lt in
    let row : m v.current_page_directory (pd_idx a) ≡ entry v (pd_idx a) =
      tree_words v s t.home (pd_idx a) in
    let word = tree_words v s (t.table (pd_idx a) maps.present) (pt_idx a) in
    record { present = rw row maps.present; page = rw (row, word) maps.page }

-- Let the current directory be a tree that maps all physical memory at its own addresses, so that the
-- kernel reaches the tables and the pages there. The copy of an address space changes no word of a
-- page that was in use, the original's tables and pages and the kernel's among them, whether it
-- succeeds or runs out of memory; and the current directory still maps all physical memory at its
-- own addresses.
pub clone_address_space-Spares :
    (v : Vmm) (pd : ℕ)
    → IsTree v
    → IsIdentity v.pmm.total_pages v
    → let m = (clone_address_space v pd).1.mem in
      Spares v m × IsIdentity v.pmm.total_pages (record v { mem = m })
unfolding clone_address_space
clone_address_space-Spares v pd t identity =
    let made = create_address_space v in
    let (s, h) = create-Created v t.allocator in
    let spared = Result-Spares v (cloned pd made) (cloned-Result v pd made.0 made.1 s h) in
    (spared, Spares-IsIdentity v.pmm.total_pages _ t spared identity)
