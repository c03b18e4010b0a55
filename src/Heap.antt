-- ===== src/Heap.antt =====
-- The kernel heap, src/kernel/heap.c: `malloc` and `free` over an address-ordered list of free
-- blocks. A block's header (`struct heap_block`) is kept by its address, one function for each
-- field; the bytes behind a header belong to whoever holds the block and are not kept. A pointer
-- `pp` to a link is `Link`. `vmm_alloc_page` is the parameter `map_page`, over the state `V` of the
-- memory manager; it returns 0 when it fails. The loops run on fuel.
pub mod Blocks
pub mod Chain
pub mod Free
pub mod Malloc
pub mod Merge
mod Tests
use neodymium.Base.{
  ℕ, zero, suc, ◌+◌, ◌-◌, ◌*◌, ◌/◌, ◌^◌, bit_and, bit_or, Bool, true, false, not, ◌&&◌, Option,
  none, some, ltb, leb, ◌==◌, if◌then◌else◌, update, u32, add32, sub32, not32,
}

abbrev pub page_size : ℕ
page_size = 4096

abbrev pub heap_start : ℕ
heap_start = 0xD0000000

abbrev pub heap_init_pages : ℕ
heap_init_pages = 16

abbrev pub heap_align : ℕ
heap_align = 8

abbrev pub heap_min_block : ℕ
heap_min_block = 16

-- `sizeof(struct heap_block)`
abbrev pub header_size : ℕ
header_size = 8

abbrev pub vmm_writable : ℕ
vmm_writable = 2

-- `vm` is the state of the memory manager.
pub record Heap (V : Type 0) : Type 0 where
  pub size : ℕ → ℕ
  pub next : ℕ → ℕ
  pub heap_free : ℕ
  pub heap_top : ℕ
  pub vm : V

-- `struct heap_block **pp`: the list head, or the `next` field of a block.
pub data Link : Type 0 where
  head : Link
  next_of : ℕ → Link

-- The bytes that a request takes: the header and the size, rounded up.
pub needed_bytes : ℕ → ℕ
needed_bytes size =
    let needed = bit_and (u32 (header_size + size + heap_align - 1)) (not32 (heap_align - 1)) in
    if ltb needed heap_min_block then heap_min_block else needed

module _ {V : Type 0} where
  -- `*pp` and `*pp = b`
  unfoldable pub load : Heap V → Link → ℕ
  load h head = h.heap_free
  load h (next_of a) = h.next a

  unfoldable pub store : Heap V → Link → ℕ → Heap V
  store h head b = record h { heap_free = b }
  store h (next_of a) b = record h { next = update h.next a b }

  -- `b->size = s` and `b->next = n`
  abbrev pub set_size : Heap V → ℕ → ℕ → Heap V
  set_size h b s = record h { size = update h.size b s }

  abbrev pub set_next : Heap V → ℕ → ℕ → Heap V
  set_next h b n = record h { next = update h.next b n }

  -- `b->size & ~1u`
  abbrev pub block_size : Heap V → ℕ → ℕ
  block_size h b = bit_and (h.size b) 0xFFFFFFFE

  -- The rest of a block of which `needed` bytes are taken goes back to the list at `pp`, if it is
  -- large enough for a block; the address behind the header is the result.
  pub split : ℕ → ℕ → ℕ → Link → Heap V → ℕ × Heap V
  split needed block remaining pp h =
      if leb heap_min_block remaining
      then (let h1 = set_size h block (bit_and needed 0xFFFFFFFE) in
          let rest = add32 block needed in
          let h2 = set_size h1 rest (bit_or remaining 1) in
          let h3 = set_next h2 rest (h2.next block) in (add32 block header_size, store h3 pp rest))
      else (add32 block header_size, store h pp (h.next block))

  -- The first loop of `malloc`. The outer `none` means that the fuel ran out, the inner one that no
  -- free block is large enough.
  pub search_list : ℕ → ℕ → Link → Heap V → Option (Option (ℕ × Heap V))
  search_list zero needed pp h = none
  search_list (suc fuel) needed pp h =
      let block = load h pp in
      let rest = search_list fuel needed (next_of block) h in
      if block == 0
      then some none
      else if leb needed (block_size h block)
      then some (some (split needed block (sub32 (block_size h block) needed) pp h))
      else rest

  -- `while (*pp && *pp < addr) pp = &(*pp)->next`
  pub find_link : ℕ → ℕ → Link → Heap V → Option Link
  find_link zero addr pp h = none
  find_link (suc fuel) addr pp h =
      let rest = find_link fuel addr (next_of (load h pp)) h in
      if not (load h pp == 0) && ltb (load h pp) addr then rest else some pp

  -- The loop of `free`: the last block before `block`, or 0, and the one after it.
  pub find_place : ℕ → ℕ → ℕ → ℕ → Heap V → Option (ℕ × ℕ)
  find_place zero block prev curr h = none
  find_place (suc fuel) block prev curr h =
      let rest = find_place fuel block curr (h.next curr) h in
      if not (curr == 0) && ltb curr block then rest else some (prev, curr)

  -- The merge with the block behind.
  pub join_next : ℕ → ℕ → ℕ → Heap V → Heap V
  join_next block s curr h =
      if not (curr == 0) && (add32 block s == curr)
      then set_next (set_size h block (bit_or (add32 s (block_size h curr)) 1)) block (h.next curr)
      else set_next h block curr

  -- The link from the block before, or from the list head, and the merge with the block before.
  pub join_prev : ℕ → ℕ → Heap V → Heap V
  join_prev block prev h =
      if prev == 0
      then record h { heap_free = block }
      else (let h1 = set_next h prev block in
          if add32 prev (block_size h1 prev) == block
          then set_next
              (set_size h1 prev (bit_or (add32 (block_size h1 prev) (block_size h1 block)) 1)) prev
              (h1.next block)
          else h1)

  pub free : ℕ → ℕ → Heap V → Option (Heap V)
  unfolding join_next join_prev
  free fuel ptr h =
      if ptr == 0
      then some h
      else (let block = sub32 ptr header_size in
          let s = block_size h block in
          let h1 = set_size h block (bit_or s 1) in
          elim (find_place fuel block 0 h1.heap_free h1) [
            | none ↦ none
            | some (prev, curr) ↦ some (join_prev block prev (join_next block s curr h1))
          ])

module _ {V : Type 0} (map_page : V → ℕ → ℕ → ℕ × V) where
  -- The pages that back new heap memory, from `addr` on; false as soon as one cannot be had.
  pub map_pages : ℕ → ℕ → V → Bool × V
  map_pages zero addr vm = (true, vm)
  map_pages (suc n) addr vm =
      let (phys, vm') = map_page vm addr vmm_writable in
      let rest = map_pages n (add32 addr page_size) vm' in if phys == 0 then (false, vm') else rest

  -- The block that new pages form is linked in at its place.
  pub link_grown : ℕ → ℕ → Link → Heap V → Heap V
  link_grown addr grow pp h =
      let h1 = set_size h addr (bit_or grow 1) in store (set_next h1 addr (load h1 pp)) pp addr

  -- The part of `malloc` behind its first loop: the heap grows by whole pages.
  pub grow_heap : ℕ → ℕ → Heap V → Option (ℕ × Heap V)
  grow_heap fuel needed h =
      let grow = bit_and (u32 (needed + page_size - 1)) (not32 (page_size - 1)) in
      let addr = h.heap_top in
      let (mapped, vm') = map_pages (grow / page_size) addr h.vm in
      let h1 = record h { vm = vm'; heap_top = add32 addr grow } in
      if not mapped then some (0, record h { vm = vm' }) else elim (find_link fuel addr head h1) [
        | none ↦ none
        | some pp ↦ some (split needed addr (sub32 grow needed) pp (link_grown addr grow pp h1))
      ]

  -- `malloc`: the address behind the header, or 0.
  pub malloc : ℕ → ℕ → Heap V → Option (ℕ × Heap V)
  malloc fuel size h =
      if size == 0 then some (0, h) else elim (search_list fuel (needed_bytes size) head h) [
        | none ↦ none
        | some found ↦ elim found [
          | some out ↦ some out
          | none ↦ grow_heap fuel (needed_bytes size) h
        ]
      ]

  -- The loop of `heap_init`, which returns at the first page that cannot be had.
  pub init_pages : ℕ → Heap V → Bool × Heap V
  init_pages zero h = (true, h)
  init_pages (suc n) h =
      let (phys, vm') = map_page h.vm h.heap_top vmm_writable in
      let rest = init_pages n (record h { heap_top = add32 h.heap_top page_size; vm = vm' }) in
      if phys == 0 then (false, record h { vm = vm' }) else rest

  pub init : Heap V → Heap V
  init h =
      let (mapped, h1) =
        init_pages heap_init_pages (record h { heap_free = 0; heap_top = heap_start }) in
      if not mapped then h1 else record h1 {
        size = update h1.size heap_start (bit_or (heap_init_pages * page_size) 1);
        next = update h1.next heap_start 0;
        heap_free = heap_start;
      }
