-- ===== src/Elf/Program/Load.antt =====
-- `elf_load` loads an image whose headers are known.
use neodymium.Base.{ℕ, ◌+◌, ◌*◌, ◌≤◌, ◌≡◌, true, some, List, [], ◌∷◌, length}
use neodymium.Vmm.{Vmm}
use neodymium.Vmm.Tree.{IsTree, IsIdentity}
use neodymium.Elf.Segment.{first_page}
use neodymium.Elf.{load_segments, load_stack, elf_load}
use neodymium.Elf.Program.Bytes.{Image, word16, word32}
use neodymium.Elf.Program.{Header, skipped, load, IsTable, need}
use neodymium.Elf.Program.Run.{LoadedAll}

-- A run of the loop over the headers `hs` from header `n` on.
Runs : (v : Vmm) (fuel n elf phdr : ℕ) (b : ℕ → ℕ) → List Header → Type 0
Runs v fuel n elf phdr b hs =
    (w : Vmm) × (load_segments fuel n elf phdr v ≡ some (true, w)) × LoadedAll v w b hs

-- What the loop's lemma needs of the state and of the header it is at.
record AtHeader (v : Vmm) (fuel n elf phdr len o : ℕ) (b from : ℕ → ℕ) (hs : List Header)
    : Type 0 where
  tree : IsTree v
  image : Image v elf len b from
  table : IsTable b elf len o hs
  enough : length hs ≤ fuel
  count : n + length hs ≡ word16 b 44
  has_count : 46 ≤ len
  here : phdr + n * 32 ≡ elf + o
  room : need hs ≤ v.pmm.free_count

-- The segments lie above the first `n` pages.
abbrev pub Above : (n : ℕ) → List Header → Type 0
Above n [] = Unit
Above n (skipped ∷ hs) = Above n hs
Above n (load g ∷ hs) = (n ≤ first_page g) × Above n hs

-- A run of `elf_load` that loads the segments and goes on with the stack, and leaves physical memory at
-- its own addresses.
pub LoadsAll : (v : Vmm) (elf : ℕ) (b : ℕ → ℕ) → List Header → Type 0
LoadsAll v elf b hs =
    (w : Vmm) × (elf_load elf v ≡ load_stack (word32 b 24) w)
    × LoadedAll v w b hs
    × IsIdentity v.pmm.total_pages w
