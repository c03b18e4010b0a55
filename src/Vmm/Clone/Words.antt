-- ===== src/Vmm/Clone/Words.antt =====
-- The copy of a table writes only to pages that were free.
use neodymium.Base.{
  ℕ, ◌≡◌, ◌≢◌, Bool, true, false, not, bit_and, bit_or, ◌==◌, for_below-keeps, update2, if_keeps,
  if_split, arith,
}
use neodymium.Pmm
use neodymium.Pmm.{Pmm}
use neodymium.Pmm.Page.{IsValid, Allocated, alloc_page-Allocated, alloc_page-pos}
use neodymium.Vmm.{Vmm, vmm_present, has, frame, copy_page}
use neodymium.Vmm.Init.Tables.{InUse, InUse-stays, InUse-apart}
use neodymium.Vmm.Clone.{copy_entry, unless_failed, copy_table}

-- The words of the pages in use in `v` are those of `m`.
abbrev pub Spares : Vmm → (ℕ → ℕ → ℕ) → Type 0
Spares v m = (r : ℕ) → InUse v.pmm r → (i : ℕ) → m r i ≡ v.mem r i

-- A page that was not in use in `v`.
abbrev pub IsNew : Vmm → ℕ → Type 0
IsNew v t = (r : ℕ) → InUse v.pmm r → r ≢ t

-- A state on the way from `v`.
pub record IsOnWay (v w : Vmm) : Type 0 where
  pub valid : IsValid w.pmm
  pub stays : (r : ℕ) → InUse v.pmm r → InUse w.pmm r
  pub spares : Spares v w.mem

abbrev pub Result : Vmm → Bool × Vmm → Type 0
Result v (true, w) = IsOnWay v w
Result v (false, w) = Spares v w.mem

pub write-Spares :
    (v : Vmm) (m : ℕ → ℕ → ℕ) (t j x : ℕ) → IsNew v t → Spares v m → Spares v (update2 m t j x)
write-Spares v m t j x new s r u i = ground (arith, new r u, s r u i)

copy_page-Spares :
    (v : Vmm) (m : ℕ → ℕ → ℕ) (t from : ℕ) → IsNew v t → Spares v m → Spares v (copy_page m t from)
unfolding copy_page
copy_page-Spares v m t from new s =
    for_below-keeps (Spares v) 1024 (λ j a. update2 a t j (a from j)) m
      (λ j a h. write-Spares v a t j (a from j) new h) s

taken :
    (v w : Vmm) (addr : ℕ) (q : Pmm)
    → IsOnWay v w
    → Allocated w.pmm addr q
    → IsValid q
    → IsNew v addr × IsOnWay v (record w { pmm = q })
taken v w addr q h al valid = (
  λ r u. InUse-apart al (h.stays r u),
  record { valid = valid; stays = λ r u. InUse-stays al (h.stays r u); spares = h.spares },
)

pub allocated :
    (v w : Vmm)
    → IsOnWay v w
    → ((Pmm.alloc_page w.pmm).0 == 0) ≡ false
    → let (addr, q) = Pmm.alloc_page w.pmm in IsNew v addr × IsOnWay v (record w { pmm = q })
allocated v w h ne =
    let (al, valid) =
      alloc_page-Allocated h.valid (alloc_page-pos w.pmm (λ z. ground (arith, ne, z))) in
    taken v w (Pmm.alloc_page w.pmm).0 (Pmm.alloc_page w.pmm).1 h al valid

pub with_words :
    (v w : Vmm) (m : ℕ → ℕ → ℕ) → IsOnWay v w → Spares v m → IsOnWay v (record w { mem = m })
with_words v w m h s = record { valid = h.valid; stays = h.stays; spares = s }

copy_entry-Result :
    (v : Vmm) (old_pt new_pt j : ℕ) (w : Vmm)
    → IsNew v new_pt
    → IsOnWay v w
    → Result v (copy_entry old_pt new_pt j w)
unfolding copy_entry
copy_entry-Result v old_pt new_pt j w new h =
    let e = w.mem old_pt j in
    let (new_page, q) = Pmm.alloc_page w.pmm in
    let m1 = copy_page w.mem new_page (frame e) in
    let m2 = update2 m1 new_pt j (bit_or new_page (bit_and (m1 old_pt j) 0xFFF)) in
    if_keeps (Result v) (not (has e vmm_present))
      (with_words v w (update2 w.mem new_pt j 0) h (write-Spares v w.mem new_pt j 0 new h.spares))
      (if_split (Result v) (new_page == 0) (λ z. h.spares)
        (λ ne.
          let (fresh, on) = allocated v w h ne in
          with_words v (record w { pmm = q }) m2 on
            (write-Spares v m1 new_pt j (bit_or new_page (bit_and (m1 old_pt j) 0xFFF)) new
              (copy_page-Spares v w.mem new_page (frame e) fresh h.spares))))

pub unless_failed-Result :
    (v : Vmm) (f : Vmm → Bool × Vmm) (r : Bool × Vmm)
    → ((w : Vmm) → IsOnWay v w → Result v (f w))
    → Result v r
    → Result v (unless_failed f r)
unfolding unless_failed
unless_failed-Result v f (true, w) step h = step w h
unless_failed-Result v f (false, w) step h = h

pub copy_table-Result :
    (v : Vmm) (old_pt new_pt : ℕ) (w : Vmm)
    → IsNew v new_pt
    → IsOnWay v w
    → Result v (copy_table old_pt new_pt w)
unfolding copy_table
copy_table-Result v old_pt new_pt w new h =
    for_below-keeps (Result v) 1024 (λ j r. unless_failed (copy_entry old_pt new_pt j) r) (true, w)
      (λ j r k.
        unless_failed-Result v (copy_entry old_pt new_pt j) r
          (λ u on. copy_entry-Result v old_pt new_pt j u new on) k)
      h
