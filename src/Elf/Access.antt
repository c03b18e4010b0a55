-- ===== src/Elf/Access.antt =====
-- Memory as the processor reaches it, through the page tables of the current directory, with a
-- page fault where an address is not mapped. The kernel runs these accesses, so that only the
-- present bits count.
pub mod Bytes
pub mod Store
use neodymium.Base.{
  ℕ, ◌+◌, ◌-◌, ◌*◌, ◌/◌, ◌%◌, ◌^◌, ◌&&◌, Option, none, some, if◌then◌else◌, update2, add32,
}
use neodymium.Vmm.{Vmm, vmm_present, pd_idx, pt_idx, has, frame, zero_page}

abbrev pub M : Type 0 → Type 0
M A = Vmm → Option (A × Vmm)

abbrev pub pure : {A : Type 0} → A → M A
pure a v = some (a, v)

infixl 5 ◌>>=◌ ◌>>◌
abbrev pub ◌>>=◌ : {A B : Type 0} → M A → (A → M B) → M B
◌>>=◌ m f v = elim (m v) [ none ↦ none | some (a, w) ↦ f a w ]

abbrev pub ◌>>◌ : {B : Type 0} → M (Unit {0}) → M B → M B
m >> k = m >>= λ _. k

-- The page that an address lies in, in physical memory.
pub page_of : Vmm → ℕ → Option ℕ
page_of v a =
    let e = v.mem v.current_page_directory (pd_idx a) in
    let p = v.mem (frame e) (pt_idx a) in
    if has e vmm_present && has p vmm_present then some (frame p) else none

-- Byte `k` of a word, lowest first, and the word with that byte replaced.
unfoldable pub byte_of : (w k : ℕ) → ℕ
byte_of w k = w / 2 ^ (8 * k) % 256

pub with_byte : (w k b : ℕ) → ℕ
with_byte w k b = w - byte_of w k * 2 ^ (8 * k) + b * 2 ^ (8 * k)

-- The byte at offset `o` of a page of physical memory.
unfoldable pub peek : (mem : ℕ → ℕ → ℕ) (p o : ℕ) → ℕ
peek mem p o = byte_of (mem p (o / 4)) (o % 4)

pub poke : (mem : ℕ → ℕ → ℕ) (p o b : ℕ) → ℕ → ℕ → ℕ
poke mem p o b = update2 mem p (o / 4) (with_byte (mem p (o / 4)) (o % 4) b)

pub load8 : (a : ℕ) → M ℕ
load8 a v = elim (page_of v a) [ none ↦ none | some p ↦ some (peek v.mem p (a % 4096), v) ]

pub store8 : (a b : ℕ) → M (Unit {0})
store8 a b v = elim (page_of v a) [
  | none ↦ none
  | some p ↦ some (tt, record v { mem = poke v.mem p (a % 4096) b })
]

-- A read of an `unsigned short` and of an `unsigned int`, lowest byte first.
unfoldable pub load16_at : (a : ℕ) → M ℕ
load16_at a = do b0 ← load8 a; b1 ← load8 (add32 a 1); pure (b0 + b1 * 256)

unfoldable pub load32_at : (a : ℕ) → M ℕ
load32_at a = do h0 ← load16_at a; h1 ← load16_at (add32 a 2); pure (h0 + h1 * 65536)

-- The loop that zeroes the 1024 words of the page at `a`. The words of a page have one translation,
-- which is looked up once.
pub clear_page : (a : ℕ) → M (Unit {0})
clear_page a v = elim (page_of v a) [
  | none ↦ none
  | some p ↦ some (tt, record v { mem = zero_page v.mem p })
]
