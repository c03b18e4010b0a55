-- ===== src/Framebuffer/Pixels.antt =====
-- Pixels in memory: where they lie, and that no two of them overlap.
use neodymium.Base.{
  load32, ℕ, ◌+◌, ◌*◌, ◌/◌, ◌^◌, ◌<◌, ◌≤◌, ◌≡◌, ◌≢◌, ap, ◌⊎◌, inl, inr, true, false, ◌&&◌, ◌==◌,
  if◌then◌else◌, u32, add32, arith,
}
use neodymium.Framebuffer.{Screen, store32}

load32-store32 : (m : ℕ → ℕ) (a v : ℕ) → v < 2 ^ 32 → load32 (store32 m a v) a ≡ v
unfolding store32
load32-store32 m a v h = ground arith

load32-store32_other :
    (m : ℕ → ℕ) (a b v : ℕ) → (a + 4 ≤ b) ⊎ (b + 4 ≤ a) → load32 (store32 m a v) b ≡ load32 m b
unfolding store32
load32-store32_other m a b v h = ground arith

-- A screen of four bytes a pixel, whose lines lie in memory one behind the other.
pub record IsFitted (s : Screen) : Type 0 where
  pub deep : s.bpp / 8 ≡ 4
  pub wide : s.width * 4 ≤ s.pitch
  pub inside : s.ptr + s.height * s.pitch ≤ 2 ^ 32
  pub signed : (s.width < 2 ^ 31) × (s.height < 2 ^ 31)

-- The address of a pixel.
abbrev pub pixel_at : Screen → (x y : ℕ) → ℕ
pixel_at s x y = s.ptr + y * s.pitch + x * 4

rows_apart : (a b p : ℕ) → a < b → a * p + p ≤ b * p
rows_apart a b p h = grind arith

pixel_inside :
    (s : Screen) (x y : ℕ)
    → IsFitted s
    → x < s.width
    → y < s.height
    → y * s.pitch + x * 4 + 4 ≤ s.height * s.pitch
pixel_inside s x y f hx hy = omega (arith, f.wide, hx, rows_apart y s.height s.pitch hy)

abbrev pub address : Screen → (x y : ℕ) → ℕ
address s x y = add32 s.ptr (u32 (y * s.pitch + x * (s.bpp / 8)))

-- On the screen the address does not wrap.
pub address-pixel_at :
    (s : Screen) (x y : ℕ)
    → IsFitted s
    → x < s.width
    → y < s.height
    → address s x y ≡ pixel_at s x y
address-pixel_at s x y f hx hy =
    let e : y * s.pitch + x * (s.bpp / 8) ≡ y * s.pitch + x * 4 =
      ap (λ n. y * s.pitch + x * n) f.deep in
    omega (arith, e, pixel_inside s x y f hx hy, f.inside)

below_or : (a b : ℕ) → (a < b) ⊎ ((b < a) ⊎ (a ≡ b))
below_or a b = omega arith

-- Two pixels are apart.
pixels_apart :
    (s : Screen) (x y i j : ℕ)
    → IsFitted s
    → x < s.width
    → i < s.width
    → (x ≢ i) ⊎ (y ≢ j)
    → (pixel_at s x y + 4 ≤ pixel_at s i j) ⊎ (pixel_at s i j + 4 ≤ pixel_at s x y)
pixels_apart s x y i j f hx hi d = elim (below_or y j) [
  | inl h ↦ inl (omega (arith, rows_apart y j s.pitch h, f.wide, hx))
  | inr (inl h) ↦ inr (omega (arith, rows_apart j y s.pitch h, f.wide, hi))
  | inr (inr e) ↦
      let lines : y * s.pitch ≡ j * s.pitch = ap (λ n. n * s.pitch) e in ground (arith, d, e, lines)
]

-- The memory behind a write to a pixel.
unfoldable pub paint : Screen → (x y color : ℕ) → (ℕ → ℕ) → ℕ → ℕ
paint s x y color m = store32 m (address s x y) color

-- The pixel of a memory, on the screen `s`.
unfoldable pub pixel : Screen → (ℕ → ℕ) → (x y : ℕ) → ℕ
pixel s m x y = load32 m (pixel_at s x y)

same_pixel :
    (x y i j : ℕ)
    → ((x ≡ i) × (y ≡ j) × (((x == i) && (y == j)) ≡ true))
      ⊎ (((x ≢ i) ⊎ (y ≢ j)) × (((x == i) && (y == j)) ≡ false))
same_pixel x y i j = ground arith

-- The pixel behind a write at the address of one.
pixel_split :
    (s : Screen) (m : ℕ → ℕ) (x y color i j : ℕ)
    → IsFitted s
    → color < 2 ^ 32
    → x < s.width
    → i < s.width
    → load32 (store32 m (pixel_at s x y) color) (pixel_at s i j)
      ≡ (if (x == i) && (y == j) then color else load32 m (pixel_at s i j))
pixel_split s m x y color i j f hc hx hi = elim (same_pixel x y i j) [
  | inl (e, d, b) ↦ rw (b, e, d) (load32-store32 m (pixel_at s i j) color hc)
  | inr (d, b) ↦ rw b (
      load32-store32_other m (pixel_at s x y) (pixel_at s i j) color
        (pixels_apart s x y i j f hx hi d))
]

pub pixel-paint :
    (s : Screen) (m : ℕ → ℕ) (x y color i j : ℕ)
    → IsFitted s
    → color < 2 ^ 32
    → x < s.width
    → y < s.height
    → i < s.width
    → j < s.height
    → pixel s (paint s x y color m) i j ≡ (if (x == i) && (y == j) then color else pixel s m i j)
unfolding paint pixel
pixel-paint s m x y color i j f hc hx hy hi hj =
    let at : address s x y ≡ pixel_at s x y = address-pixel_at s x y f hx hy in
    rw at (pixel_split s m x y color i j f hc hx hi)
