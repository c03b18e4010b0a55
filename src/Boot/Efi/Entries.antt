-- ===== src/Boot/Efi/Entries.antt =====
-- What the entries of the memory map say of the firmware's descriptors.
use mathlib.Core.Path.{subst}
use neodymium.Base.{
  ℕ, zero, suc, ◌+◌, ◌*◌, ◌%◌, ◌^◌, ◌≤◌, ◌<◌, ◌≡◌, sym, ◌⊎◌, ◌↔◌, List, [], ◌∷◌, Option, ltb, ◌==◌,
  if◌then◌else◌, arith, then_keeps, else_keeps,
}
use neodymium.Boot.{MultibootInfo}
use neodymium.Boot.Efi.{
  MemoryDescriptor, MmapEntry, GraphicsMode, efi_conventional_memory, efi_boot_services_data,
  efi_mmap_max_entries, bytes_of, type_to_mboot, entry_of, populate_loop, populate_multiboot,
}

-- Of the `n` descriptors of `size` bytes from `off` on those that there is room for.
abbrev pub descriptors :
    (room n : ℕ) (desc_at : ℕ → MemoryDescriptor) (size off : ℕ) → List MemoryDescriptor
descriptors zero n desc_at size off = []
descriptors (suc room) zero desc_at size off = []
descriptors (suc room) (suc n) desc_at size off =
    desc_at off ∷ descriptors room n desc_at size (off + size)

-- An entry says where the memory lies: the address and the length of the descriptor.
abbrev pub Tells : MmapEntry → MemoryDescriptor → Type 0
Tells e d =
    (e.addr_low + e.addr_high * 2 ^ 32 ≡ d.physical_start)
    × (e.len_low + e.len_high * 2 ^ 32 ≡ bytes_of d)
    × ((e.type ≡ 1)
        ↔ ((d.type ≡ efi_conventional_memory) ⊎ ((1 ≤ d.type) × (d.type ≤ efi_boot_services_data))))

abbrev pub AllTell : List MmapEntry → List MemoryDescriptor → Type 0
AllTell [] [] = Unit
AllTell [] (d ∷ ds) = ⊥
AllTell (e ∷ es) [] = ⊥
AllTell (e ∷ es) (d ∷ ds) = Tells e d × AllTell es ds

entry_of-Tells : (d : MemoryDescriptor) → Tells (entry_of d) d
unfolding entry_of type_to_mboot
entry_of-Tells d = (omega arith, omega arith, ground arith)

loop-AllTell :
    (room n : ℕ) (desc_at : ℕ → MemoryDescriptor) (stop size off total : ℕ)
    → 1 ≤ size
    → stop ≡ off + n * size
    → stop < 2 ^ 64
    → AllTell
        (populate_loop room desc_at stop size off total).0
        (descriptors room n desc_at size off)
unfolding populate_loop
loop-AllTell zero n desc_at stop size off total lo e h = _
loop-AllTell (suc room) zero desc_at stop size off total lo e h =
    let d = desc_at off in
    let total1 =
      if d.type == efi_conventional_memory then (total + bytes_of d) % 2 ^ 64 else total in
    let rest = populate_loop room desc_at stop size ((off + size) % 2 ^ 64) total1 in
    let none_left : AllTell [] [] = _ in
    else_keeps (λ (r : List MmapEntry × ℕ). AllTell r.0 []) (ltb off stop)
      (entry_of d ∷ rest.0, rest.1) {y = ([], total)} (ground (arith, e)) none_left
loop-AllTell (suc room) (suc n) desc_at stop size off total lo e h =
    let d = desc_at off in
    let total1 =
      if d.type == efi_conventional_memory then (total + bytes_of d) % 2 ^ 64 else total in
    let more : (suc n) * size ≡ n * size + size = omega arith in
    let small : (off + size) % 2 ^ 64 ≡ off + size = omega (arith, e, more, h) in
    let rest =
      loop-AllTell room n desc_at stop size (off + size) total1 lo (omega (arith, e, more)) h in
    then_keeps
      (λ (r : List MmapEntry × ℕ). AllTell r.0 (d ∷ descriptors room n desc_at size (off + size)))
      (ltb off stop) ([], total) (ground (arith, e, more, lo))
      (
        entry_of-Tells d,
        subst
            (λ o.
              AllTell (populate_loop room desc_at stop size o total1).0
                (descriptors room n desc_at size (off + size)))
            (sym small) rest,
      )

-- From a map of `n` descriptors of the firmware come entries for these, or for the first 256 of
-- them, in their order. An entry has the address and the length of its descriptor, as two words each,
-- and is available exactly for conventional memory and that of the loader and the boot services.
pub populate_multiboot-AllTell :
    (n : ℕ) (desc_at : ℕ → MemoryDescriptor) (size buf base : ℕ) (gop : Option GraphicsMode)
    (out : MultibootInfo)
    → 1 ≤ size
    → n * size < 2 ^ 64
    → AllTell
        (populate_multiboot desc_at (n * size) size buf base gop out).0
        (descriptors efi_mmap_max_entries n desc_at size 0)
unfolding populate_multiboot
populate_multiboot-AllTell n desc_at size buf base gop out lo h =
    loop-AllTell efi_mmap_max_entries n desc_at (n * size) size 0 0 lo (omega arith) h
