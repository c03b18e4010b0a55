-- ===== src/Heap/Tests.antt =====
-- The heap on small lists, and its theorems at them. The memory manager has no state here, and
-- every page is granted.
use neodymium.Base.{
  ℕ, ◌+◌, ◌≡◌, refl, false, ◌||◌, [], ◌∷◌, some, arith, ◌==◌, if◌then◌else◌, inl, inr,
}
use mathlib.Core.Option
use neodymium.Heap
use neodymium.Heap.{
  Heap, malloc, free, needed_bytes, block_size, heap_align, heap_min_block, header_size,
}
use neodymium.Heap.Blocks.{Blocks, IsBlock, Fit, Fits, first_fit, give_back, has_byte, in_block}
use neodymium.Heap.Free.{IsHeap, free-give_back}
use neodymium.Heap.Malloc.{needed_bytes_wraps, malloc-first_fit, free-malloc}

abbrev grant : Unit {0} → ℕ → ℕ → ℕ × Unit {0}
grant vm virt flags = (0x5000, tt)

abbrev base : ℕ
base = 0xD0000000

-- Two free blocks of 64 and 256 bytes with 48 bytes in use between them.
abbrev heap : Heap (Unit {0})
heap = record {
  size = λ a. if a == base then 65 else if a == base + 64 then 48 else 257;
  next = λ a. if a == base then base + 112 else 0;
  heap_free = base;
  heap_top = base + 4096;
  vm = tt;
}

abbrev blocks : Blocks
blocks = (base, 64) ∷ (base + 112, 256) ∷ []

heap-IsHeap : IsHeap heap blocks
heap-IsHeap = record {
  chain = (refl, refl, (refl, refl, refl));
  ordered = (omega arith, omega arith, (omega arith, omega arith, tt));
}

-- 100 bytes with their header do not fit the first block.
abbrev fit : Fit
fit = record { address = base + 112; size = 112; rest = (base, 64) ∷ (base + 224, 144) ∷ [] }

fit_found : first_fit (needed_bytes 100) blocks ≡ some fit
unfolding first_fit needed_bytes
fit_found = refl

malloc_runs : Option.map (λ out. out.0) (malloc grant 3 100 heap) ≡ some (base + 120)
unfolding malloc needed_bytes Heap.search_list Heap.load Heap.split Heap.store
malloc_runs = refl

-- The block in use touches both free blocks, and all three become one.
free_merges : give_back (base + 64) 48 blocks ≡ (base, 368) ∷ []
unfolding give_back Heap.Blocks.join
free_merges = refl

needed_bytes_wraps_example : needed_bytes 0xFFFFFFFF ≡ heap_min_block
needed_bytes_wraps_example = needed_bytes_wraps 0xFFFFFFFF (omega arith) (omega arith)

malloc-first_fit_example :
    (g : Heap (Unit {0})) × (malloc grant 3 100 heap ≡ some (base + 120, g))
    × IsHeap g fit.rest
    × (block_size g (base + 112) ≡ 112)
    × ((x : ℕ) → has_byte blocks x ≡ false → g.size x ≡ heap.size x)
    × Fits (100 + header_size) 0 blocks fit
malloc-first_fit_example =
    malloc-first_fit grant 3 100 heap blocks fit (omega arith) (omega arith) (omega arith)
      heap-IsHeap fit_found

free-malloc_example :
    (g g' : Heap (Unit {0})) × (malloc grant 3 100 heap ≡ some (base + 120, g))
    × (free 3 (base + 120) g ≡ some g')
    × IsHeap g' blocks
free-malloc_example =
    free-malloc grant 3 100 heap blocks fit (omega arith) (omega arith) (omega arith) (omega arith)
      heap-IsHeap fit_found

free-give_back_example :
    (g : Heap (Unit {0})) × (free 3 (base + 72) heap ≡ some g)
    × IsHeap g (give_back (base + 64) 48 blocks)
    × ((x : ℕ)
        → has_byte (give_back (base + 64) 48 blocks) x
          ≡ (in_block (base + 64) 48 x || has_byte blocks x))
free-give_back_example =
    free-give_back 3 heap (base + 64) 48 blocks (omega arith) heap-IsHeap (omega arith) refl
      (inr (omega arith), (inl (omega arith), tt))
