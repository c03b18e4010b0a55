-- ===== src/Vmm/Tree/Alloc.antt =====
-- `vmm_alloc_page` adds one page to the space and leaves the others alone.
use neodymium.Base.{
  ℕ, ◌+◌, ◌*◌, ◌/◌, ◌^◌, ◌<◌, ◌≤◌, ◌≡◌, ◌≢◌, refl, sym, ◌∙◌, Bool, true, false, arith, ◌==◌,
}
use neodymium.Pmm
use neodymium.Pmm.{Pmm}
use neodymium.Vmm.{
  Vmm, pd_idx, frame, own_table, make_table, set_entry, and_then, map_page_in, map_page,
  alloc_page_in, alloc_page,
}
use neodymium.Vmm.Tree.{
  entry, IsTree, IsLeaf, Owns, Maps, IsIdentity, Maps-IsIdentity, Fresh, alloc_page-Fresh,
}
use neodymium.Vmm.Tree.Grow.{Prepared, own_make-Prepared}
use neodymium.Vmm.Tree.Entry.{Written, set_entry-Written, SameTables-IsTree, SameTables-IsLeaf}
use neodymium.Vmm.Tree.Stay.{
  Grows-Owns, Grows-Maps, Written-Owns, Written-Maps, Written-kept, Written-contents,
}

-- `w` is `v` with the page `q` of physical memory mapped at the address `a`.
pub record Mapped (v w : Vmm) (a q : ℕ) : Type 0 where
  pub tree : IsTree w
  pub owns : Owns w a q
  pub fresh : (p : ℕ) → IsLeaf v p → q ≢ p
  pub kept : (b p : ℕ) → a / 4096 ≢ b / 4096 → Owns v b p → Owns w b p
  pub maps : (b p : ℕ) → a / 4096 ≢ b / 4096 → Maps v b p → Maps w b p
  pub leaf : (p : ℕ) → IsLeaf v p → IsLeaf w p
  pub contents : (p x : ℕ) → IsLeaf v p → w.mem p x ≡ v.mem p x
  pub room : v.pmm.free_count ≤ w.pmm.free_count + 2

-- The allocation of the page itself.
record Taken (v v0 : Vmm) (phys : ℕ) : Type 0 where
  tree : IsTree v0
  new : IsLeaf v0 phys
  leaf : (q : ℕ) → IsLeaf v q → IsLeaf v0 q

take-Taken :
    {v : Vmm} {p : Pmm} {phys : ℕ}
    → IsTree v
    → Fresh v.pmm p phys
    → Taken v (record v { pmm = p }) phys
take-Taken {v} {p} {phys} t f = record {
  tree = record {
    allocator = f.valid;
    home = f.kept v.current_page_directory t.home;
    word = t.word;
    table = λ i on. f.kept (frame (entry v i)) (t.table i on);
    apart = t.apart;
    distinct = t.distinct;
  };
  new = record {
    in_use = f.in_use;
    not_home = f.other v.current_page_directory t.home;
    not_table = λ j on e. f.other (frame (entry v j)) (t.table j on) (sym e);
  };
  leaf =
      λ q l. record { in_use = f.kept q l.in_use; not_home = l.not_home; not_table = l.not_table };
}

-- The mapping of a page that the space does not have yet.
record Placed (v w : Vmm) (a q : ℕ) : Type 0 where
  tree : IsTree w
  owns : Owns w a q
  kept : (b p : ℕ) → a / 4096 ≢ b / 4096 → Owns v b p → Owns w b p
  maps : (b p : ℕ) → a / 4096 ≢ b / 4096 → Maps v b p → Maps w b p
  leaf : (p : ℕ) → IsLeaf v p → IsLeaf w p
  contents : (p x : ℕ) → IsLeaf v p → w.mem p x ≡ v.mem p x
  room : v.pmm.free_count ≤ w.pmm.free_count + 1

finish_place :
    {v : Vmm} (a phys flags : ℕ) (r : Bool × Vmm)
    → Prepared v (pd_idx a) r
    → IsTree v
    → IsLeaf v phys
    → phys < 2 ^ 32
    → flags < 4096
    → Placed v
        (and_then r (λ w. (true, set_entry w v.current_page_directory a phys flags))).1
        a
        phys
unfolding and_then
finish_place a phys flags (false, w) h t l hp hf = absurd (ground (arith, h.done))
finish_place {v} a phys flags (true, w) h t l hp hf =
    let g = h.grows in
    let on = g.ready in
    let s : Written w (set_entry w v.current_page_directory a phys flags) a phys =
      rw (← g.same_home) (set_entry-Written a phys flags g.tree on l.in_use.aligned hp hf) in
    record {
      tree = SameTables-IsTree s.tables g.tree;
      owns = Written-Owns g.tree (g.leaf phys l) on s;
      kept = λ b p ne o. Written-kept b p g.tree on s ne (Grows-Owns t g o);
      maps = λ b p ne o. Written-Maps b p g.tree on s ne (Grows-Maps t g o);
      leaf = λ p f. SameTables-IsLeaf s.tables (g.leaf p f);
      contents = λ p x f. Written-contents p x on s (g.leaf p f) ∙ g.pages p x f.in_use f.not_home;
      room = rw s.tables.same_pages g.room;
    }

and_then_assoc :
    (r : Bool × Vmm) (f g : Vmm → Bool × Vmm)
    → and_then (and_then r f) g ≡ and_then r (λ v. and_then (f v) g)
unfolding and_then
and_then_assoc (false, v) f g = refl
and_then_assoc (true, v) f g = refl

map_page-Placed :
    {v : Vmm} (a phys flags : ℕ)
    → IsTree v
    → IsLeaf v phys
    → phys < 2 ^ 32
    → flags < 4096
    → 0 < v.pmm.free_count
    → Placed v (map_page v a phys flags).1 a phys
unfolding map_page map_page_in
map_page-Placed {v} a phys flags t l hp hf pos =
    let last : Vmm → Bool × Vmm = λ w. (true, set_entry w v.current_page_directory a phys flags) in
    rw
      (← (
        and_then_assoc (own_table v v.current_page_directory (pd_idx a) flags)
          (λ w. make_table w v.current_page_directory (pd_idx a) flags) last))
      (finish_place a phys flags _ (own_make-Prepared (pd_idx a) flags t pos) t l hp hf)

-- The page is on the tree: the space owns it, and it is not null.
pub record Got (v : Vmm) (a : ℕ) (r : ℕ × Vmm) : Type 0 where
  pub not_null : r.0 ≢ 0
  pub mapped : Mapped v r.1 a r.0

-- The call, whatever address it is given.
pub alloc_page_lem :
    {v : Vmm} (a flags : ℕ)
    → IsTree v
    → flags < 4096
    → 1 < v.pmm.free_count
    → Got v a (alloc_page v a flags)
unfolding alloc_page alloc_page_in map_page
alloc_page_lem {v} a flags t hf pos =
    let f = alloc_page-Fresh t.allocator (omega arith) in
    let taken = take-Taken t f in
    let got : ((Pmm.alloc_page v.pmm).0 == 0) ≡ false = ground (arith, f.not_null) in
    let m =
      map_page-Placed a (Pmm.alloc_page v.pmm).0 flags taken.tree taken.new f.small hf
        (omega (arith, f.room)) in
    rw got record {
      not_null = f.not_null;
      mapped = record {
        tree = m.tree;
        owns = m.owns;
        fresh = λ p l. f.other p l.in_use;
        kept = λ b p ne o.
            m.kept b p ne
              (record { present = o.present; page = o.page; leaf = taken.leaf p o.leaf });
        maps = λ b p ne o. m.maps b p ne (record { present = o.present; page = o.page });
        leaf = λ p l. m.leaf p (taken.leaf p l);
        contents = λ p x l. m.contents p x (taken.leaf p l);
        room = omega (arith, m.room, f.room);
      };
    }

-- Let the directory be a tree that maps all physical memory at its own addresses, so that the kernel
-- reaches the tables there, let two pages be free, one for the page and one for its table, and let
-- the address lie above physical memory. `vmm_alloc_page` returns a page that no page of the space
-- is, mapped at the address. The other pages of the space stay where they are, with their words, and
-- physical memory stays at its own addresses.
pub alloc_page-Got :
    {v : Vmm} (a flags : ℕ)
    → IsTree v
    → IsIdentity v.pmm.total_pages v
    → v.pmm.total_pages ≤ a / 4096
    → flags < 4096
    → 1 < v.pmm.free_count
    → Got v a (alloc_page v a flags) × IsIdentity v.pmm.total_pages (alloc_page v a flags).1
alloc_page-Got {v} a flags t identity above hf pos =
    let g = alloc_page_lem {v = v} a flags t hf pos in
    (
      g,
      Maps-IsIdentity v.pmm.total_pages
          (λ p lt m. g.mapped.maps (p * 4096) (p * 4096) (omega arith) m) identity,
    )
