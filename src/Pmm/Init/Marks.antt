-- ===== src/Pmm/Init/Marks.antt =====
-- Which pages are in use after `pmm_init`, in terms of addresses.
use neodymium.Base.{
  ℕ, ◌+◌, ◌*◌, ◌^◌, ◌≤◌, ◌<◌, ◌≡◌, ◌⊎◌, Bool, false, not, ◌&&◌, ◌||◌, List, [], ◌∷◌, ltb, leb, ◌==◌,
}
use neodymium.Pmm.Init.{MmapEntry}

-- The ends of the entries are words, up to the rounding to a page, and none is above `total`.
abbrev pub EndBelow : (total : ℕ) → List MmapEntry → Type 0
EndBelow total [] = Unit
EndBelow total (e ∷ es) =
    (e.addr_low + e.len_low + 4095 < 2 ^ 32) × (e.addr_low + e.len_low ≤ total) × EndBelow total es

-- One of the entries ends at `total`.
abbrev pub EndAt : (total : ℕ) → List MmapEntry → Type 0
EndAt total [] = ⊥
EndAt total (e ∷ es) = (e.addr_low + e.len_low ≡ total) ⊎ EndAt total es

-- The page `j` starts in an entry that is not of type 1, which is available memory.
abbrev pub is_reserved : List MmapEntry → ℕ → Bool
is_reserved [] j = false
is_reserved (e ∷ es) j =
    (not (e.type == 1) && (leb e.addr_low (j * 4096) && ltb (j * 4096) (e.addr_low + e.len_low)))
    || is_reserved es j

-- The page `j` and the kernel share an address.
abbrev pub is_kernel : (kernel_start kernel_end : ℕ) → ℕ → Bool
is_kernel kernel_start kernel_end j = ltb kernel_start ((j + 1) * 4096) && ltb (j * 4096) kernel_end
