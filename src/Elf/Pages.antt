-- ===== src/Elf/Pages.antt =====
-- The loop that maps the pages of a segment.
use neodymium.Base.{
  ℕ, zero, suc, ◌+◌, ◌-◌, ◌*◌, ◌/◌, ◌^◌, ◌<◌, ◌≤◌, ◌≡◌, ◌≢◌, ◌⊎◌, inl, inr, sym, ap, refl, ◌∙◌,
  true, false, some, arith, ltb, ◌==◌, if◌then◌else◌, Bool-cases, add32,
}
use neodymium.Vmm
use neodymium.Vmm.{Vmm, zero_page}
use neodymium.Vmm.Tree.{IsTree, IsLeaf, Owns, Maps, IsIdentity, Maps-IsIdentity}
use neodymium.Vmm.Tree.Rows.{zero_page_other, zero_page_row}
use neodymium.Vmm.Tree.Alloc.{Got, alloc_page_lem}
use neodymium.Elf.Access.{◌>>=◌, ◌>>◌, clear_page}
use neodymium.Elf.Access.Store.{clear_page-Owns, leaf-Keeps}
use neodymium.Elf.{alloc_user_page, map_pages, user_flags}

-- `w` is `v` with the pages from number `s` up to number `e` mapped: the page number `n` is the page
-- `at n` of physical memory, which is zero and was no page of the space before; and the rest of the
-- space stays.
pub record Filled (v w : Vmm) (s e : ℕ) : Type 0 where
  pub at : ℕ → ℕ
  pub tree : IsTree w
  pub owns : (n : ℕ) → s ≤ n → n < e → Owns w (n * 4096) (at n)
  pub apart : (n m : ℕ) → s ≤ n → n < m → m < e → at n ≢ at m
  pub clear : (n x : ℕ) → s ≤ n → n < e → x < 1024 → w.mem (at n) x ≡ 0
  pub fresh : (n p : ℕ) → s ≤ n → n < e → IsLeaf v p → at n ≢ p
  pub kept : (b p : ℕ) → (b / 4096 < s) ⊎ (e ≤ b / 4096) → Owns v b p → Owns w b p
  pub maps : (b p : ℕ) → (b / 4096 < s) ⊎ (e ≤ b / 4096) → Maps v b p → Maps w b p
  pub leaf : (p : ℕ) → IsLeaf v p → IsLeaf w p
  pub contents : (p x : ℕ) → IsLeaf v p → w.mem p x ≡ v.mem p x
  pub room : v.pmm.free_count ≤ w.pmm.free_count + 2 * (e - s)

-- One page of them.
record FilledOne (v u : Vmm) (s q : ℕ) : Type 0 where
  tree : IsTree u
  owns : Owns u (s * 4096) q
  clear : (x : ℕ) → x < 1024 → u.mem q x ≡ 0
  fresh : (p : ℕ) → IsLeaf v p → q ≢ p
  kept : (b p : ℕ) → s ≢ b / 4096 → Owns v b p → Owns u b p
  maps : (b p : ℕ) → s ≢ b / 4096 → Maps v b p → Maps u b p
  leaf : (p : ℕ) → IsLeaf v p → IsLeaf u p
  contents : (p x : ℕ) → IsLeaf v p → u.mem p x ≡ v.mem p x
  room : v.pmm.free_count ≤ u.pmm.free_count + 2

Filled-none : {v : Vmm} {s e : ℕ} → e ≤ s → IsTree v → Filled v v s e
Filled-none le t = record {
  at = λ n. 0;
  tree = t;
  owns = λ n a b. absurd (omega arith);
  apart = λ n m a b c. absurd (omega arith);
  clear = λ n x a b c. absurd (omega arith);
  fresh = λ n p a b. absurd (omega arith);
  kept = λ b p out o. o;
  maps = λ b p out o. o;
  leaf = λ p l. l;
  contents = λ p x l. refl;
  room = omega arith;
}

module _ {v u w : Vmm} {s e q : ℕ} (one : FilledOne v u s q) (h : Filled u w (s + 1) e) where
  -- What holds of the first page and of the others holds of all.
  Filled-split :
      (P : ℕ → ℕ → Type 0)
      → P s q
      → ((n : ℕ) → s + 1 ≤ n → n < e → P n (h.at n))
      → (n : ℕ) → s ≤ n
      → n < e
      → P n (if n == s then q else h.at n)
  Filled-split P here there n lo hi = elim (Bool-cases (n == s)) [
    | inl same ↦ let f : s ≡ n = ground (arith, same) in rw same (rw (← f) here)
    | inr other ↦ rw other (there n (ground (arith, other)) hi)
  ]

  Filled-cons : s < e → Filled v w s e
  Filled-cons lt = record {
    at = λ n. if n == s then q else h.at n;
    tree = h.tree;
    owns =
        Filled-split (λ n p. Owns w (n * 4096) p) (h.kept (s * 4096) q (inl (omega arith)) one.owns)
          (λ n lo hi. h.owns n lo hi);
    apart = λ n m lo lt' hi.
        let later : (m == s) ≡ false = ground arith in
        rw later (
          Filled-split (λ k p. k < m → p ≢ h.at m)
            (λ k f. h.fresh m q (omega arith) hi one.owns.leaf (sym f))
            (λ k lo' hi' lt2. h.apart k m lo' lt2 hi) n lo (omega arith) lt');
    clear = λ n x lo hi hx.
        Filled-split (λ k p. w.mem p x ≡ 0) (h.contents q x one.owns.leaf ∙ one.clear x hx)
          (λ k a b. h.clear k x a b hx) n lo hi;
    fresh = λ n p lo hi l.
        Filled-split (λ k f. f ≢ p) (one.fresh p l) (λ k a b. h.fresh k p a b (one.leaf p l)) n lo
          hi;
    kept = λ b p out o. h.kept b p (ground arith) (one.kept b p (ground arith) o);
    maps = λ b p out o. h.maps b p (ground arith) (one.maps b p (ground arith) o);
    leaf = λ p l. h.leaf p (one.leaf p l);
    contents = λ p x l. h.contents p x (one.leaf p l) ∙ one.contents p x l;
    room = omega (arith, h.room, one.room);
  }

-- An allocation and the loop that zeroes the page.
Got-FilledOne :
    {v : Vmm} {s : ℕ} {r : ℕ × Vmm}
    → Got v (s * 4096) r
    → FilledOne v (record r.1 { mem = zero_page r.1.mem r.0 }) s r.0
Got-FilledOne {v} {s} {r} g =
    let m = g.mapped in
    let k =
      leaf-Keeps (zero_page r.1.mem r.0) m.tree m.owns.leaf
        (λ p x ne. zero_page_other r.1.mem r.0 p x ne) in
    record {
      tree = k.tree;
      owns = k.owns (s * 4096) r.0 m.owns;
      clear = λ x h. zero_page_row r.1.mem r.0 x h;
      fresh = m.fresh;
      kept = λ b p ne o. k.owns b p (m.kept b p (λ e. ne (omega arith)) o);
      maps = λ b p ne o. k.maps b p (m.maps b p (λ e. ne (omega arith)) o);
      leaf = λ p l. k.leaf p (m.leaf p l);
      contents = λ p x l. zero_page_other r.1.mem r.0 p x (m.fresh p l) ∙ m.contents p x l;
      room = m.room;
    }

-- A round, and the end.
map_pages_round :
    (fuel page end : ℕ) (v : Vmm) {u : Vmm}
    → ltb page end ≡ true
    → ((Vmm.alloc_page v page user_flags).0 == 0) ≡ false
    → clear_page page (Vmm.alloc_page v page user_flags).1 ≡ some (tt, u)
    → map_pages (suc fuel) page end v ≡ map_pages fuel (add32 page 0x1000) end u
unfolding map_pages alloc_user_page
map_pages_round fuel page end v more got cleared =
    rw (more, got, cleared, map_pages, ◌>>=◌, ◌>>◌, alloc_user_page) refl

map_pages_end :
    (v : Vmm) (fuel page end : ℕ)
    → ltb page end ≡ false
    → map_pages fuel page end v ≡ some (true, v)
unfolding map_pages
map_pages_end v zero page end over = refl
map_pages_end v (suc fuel) page end over = rw (over, map_pages) refl

-- A run of the loop to its end.
unfoldable pub MapsRange : (v : Vmm) (fuel s e : ℕ) → Type 0
MapsRange v fuel s e =
    (w : Vmm) × (map_pages fuel (s * 4096) (e * 4096) v ≡ some (true, w)) × Filled v w s e

pub map_pages_lem :
    (fuel s e : ℕ) {v : Vmm}
    → IsTree v
    → e - s ≤ fuel
    → e < 2 ^ 20
    → 2 * (e - s) ≤ v.pmm.free_count
    → MapsRange v fuel s e
unfolding MapsRange
map_pages_lem zero s e {v} t enough small room =
    (v, map_pages_end v zero (s * 4096) (e * 4096) (ground arith), Filled-none (omega arith) t)
map_pages_lem (suc fuel) s e {v} t enough small room =
    elim (Bool-cases (ltb (s * 4096) (e * 4096))) [
      | inr end ↦ (
        v,
        map_pages_end v (suc fuel) (s * 4096) (e * 4096) end,
        Filled-none (ground (arith, end)) t,
      )
      | inl more ↦
          let lt : s < e = ground (arith, more) in
          let g = alloc_page_lem {v = v} (s * 4096) user_flags t (omega arith) (omega arith) in
          let r = Vmm.alloc_page v (s * 4096) user_flags in
          let u : Vmm = record r.1 { mem = zero_page r.1.mem r.0 } in
          let one : FilledOne v u s r.0 = Got-FilledOne g in
          let (w, eq, h) =
            map_pages_lem fuel (s + 1) e {v = u} one.tree (omega arith) small
              (omega (arith, one.room)) in
          let not_null : (r.0 == 0) ≡ false = ground (arith, g.not_null) in
          let next : add32 (s * 4096) 0x1000 ≡ (s + 1) * 4096 = omega arith in
          let round =
            map_pages_round fuel (s * 4096) (e * 4096) v more not_null
              (clear_page-Owns g.mapped.owns) in
          (w, round ∙ ap (λ p. map_pages fuel p (e * 4096) u) next ∙ eq, Filled-cons one h lt)
    ]

-- A run that leaves physical memory at its own addresses.
pub MapsAll : (v : Vmm) (fuel s e : ℕ) → Type 0
MapsAll v fuel s e =
    (w : Vmm) × (map_pages fuel (s * 4096) (e * 4096) v ≡ some (true, w))
    × Filled v w s e
    × IsIdentity v.pmm.total_pages w

-- Let the directory be a tree that maps all physical memory at its own addresses, so that the kernel
-- reaches the tables there, let two pages be free for each page from `s` up to `e`, and let these
-- lie above physical memory. The loop maps them all: it neither fails nor faults, it ends within as
-- many rounds, and physical memory stays at its own addresses.
pub map_pages-MapsAll :
    (fuel s e : ℕ) {v : Vmm}
    → IsTree v
    → IsIdentity v.pmm.total_pages v
    → v.pmm.total_pages ≤ s
    → e - s ≤ fuel
    → e < 2 ^ 20
    → 2 * (e - s) ≤ v.pmm.free_count
    → MapsAll v fuel s e
unfolding MapsAll MapsRange
map_pages-MapsAll fuel s e {v} t identity above enough small room =
    let (w, run, f) = map_pages_lem fuel s e {v = v} t enough small room in
    (
      w,
      run,
      f,
      Maps-IsIdentity v.pmm.total_pages
          (λ p lt m. f.maps (p * 4096) (p * 4096) (inl (omega arith)) m) identity,
    )
