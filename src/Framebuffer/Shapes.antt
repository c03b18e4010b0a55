-- ===== src/Framebuffer/Shapes.antt =====
-- What the drawing functions do to the pixels of the screen.
use neodymium.Base.{
  ℕ, zero, suc, ◌+◌, ◌-◌, ◌^◌, ◌<◌, ◌≡◌, refl, ap, ◌∙◌, Bool, true, false, not, ◌&&◌, ◌||◌, ltb,
  leb, ◌==◌, if◌then◌else◌, add32, arith, for_below, for_below-part, ◌⊎◌, inl, inr,
}
use neodymium.Framebuffer.{Screen, put_at, putpixel, is_neg, rounds, fillrect, clear}
use neodymium.Framebuffer.Pixels.{IsFitted, paint, pixel, pixel-paint}

-- A line of pixels from `x` on.
line-pixels :
    (s : Screen) (m : ℕ → ℕ) (column : ℕ → ℕ) (x n y color i j : ℕ)
    → IsFitted s
    → color < 2 ^ 32
    → ((k : ℕ) → k < n → column k ≡ x + k)
    → ((k : ℕ) → k < n → x + k < s.width)
    → y < s.height
    → i < s.width
    → j < s.height
    → pixel s (for_below n (λ k. paint s (column k) y color) m) i j
      ≡ (if (y == j) && (leb x i && ltb i (x + n)) then color else pixel s m i j)
line-pixels s m column x zero y color i j f hc hk hx hy hi hj = ground arith
line-pixels s m column x (suc n) y color i j f hc hk hx hy hi hj =
    let rest = for_below n (λ k. paint s (column k) y color) m in
    let here : column n ≡ x + n = hk n (omega arith) in
    let drawn = pixel-paint s rest (x + n) y color i j f hc (hx n (omega arith)) hy hi hj in
    let before =
      line-pixels s m column x n y color i j f hc (λ k h. hk k (omega (arith, h)))
        (λ k h. hx k (omega (arith, h))) hy hi hj in
    ap (λ c. pixel s (paint s c y color rest) i j) here ∙ ground (arith, drawn, before)

one_more :
    (y l j color old : ℕ) (b : Bool)
    → (if (y + l == j) && b then color else (if leb y j && ltb j (y + l) && b then color else old))
      ≡ (if leb y j && ltb j (y + suc l) && b then color else old)
one_more y l j color old true = ground arith
one_more y l j color old false = ground arith

-- A rectangle of lines from `y` on.
area-pixels :
    (s : Screen) (m : ℕ → ℕ) (column line : ℕ → ℕ) (x n y l color i j : ℕ)
    → IsFitted s
    → color < 2 ^ 32
    → ((k : ℕ) → k < n → column k ≡ x + k)
    → ((k : ℕ) → k < l → line k ≡ y + k)
    → ((k : ℕ) → k < n → x + k < s.width)
    → ((k : ℕ) → k < l → y + k < s.height)
    → i < s.width
    → j < s.height
    → pixel s (for_below l (λ r. for_below n (λ k. paint s (column k) (line r) color)) m) i j
      ≡ (if leb y j && ltb j (y + l) && (leb x i && ltb i (x + n)) then color else pixel s m i j)
area-pixels s m column line x n y zero color i j f hc hk hl hx hy hi hj = ground arith
area-pixels s m column line x n y (suc l) color i j f hc hk hl hx hy hi hj =
    let rest = for_below l (λ r. for_below n (λ k. paint s (column k) (line r) color)) m in
    let here : line l ≡ y + l = hl l (omega arith) in
    let inside = leb x i && ltb i (x + n) in
    let drawn =
      line-pixels s rest column x n (y + l) color i j f hc hk hx (hy l (omega arith)) hi hj in
    let before =
      area-pixels s m column line x n y l color i j f hc hk (λ k h. hl k (omega (arith, h))) hx
        (λ k h. hy k (omega (arith, h))) hi hj in
    ap (λ c. pixel s (for_below n (λ k. paint s (column k) c color) rest) i j) here
    ∙ drawn
    ∙ ap (λ p. if (y + l == j) && inside then color else p) before
    ∙ one_more y l j color (pixel s m i j) inside

-- A state with another memory.
abbrev with_memory : Screen → (ℕ → ℕ) → Screen
with_memory s m = record s { memory = m }

fill-area :
    (s : Screen) (column line : ℕ → ℕ) (n l color : ℕ)
    → for_below l (λ r t. for_below n (λ k u. put_at u (column k) (line r) color) t) s
      ≡ with_memory s
          (for_below l (λ r. for_below n (λ k. paint s (column k) (line r) color)) s.memory)
unfolding put_at paint
fill-area s column line n l color =
    for_below-part (with_memory s) l
      (λ r t. for_below n (λ k u. put_at u (column k) (line r) color) t)
      (λ r. for_below n (λ k. paint s (column k) (line r) color)) s.memory
      (λ r m.
        for_below-part (with_memory s) n (λ k u. put_at u (column k) (line r) color)
          (λ k. paint s (column k) (line r) color) m (λ k u. refl))

-- The pixels of the screen behind a drawing function.
abbrev pub shows : Screen → (i j : ℕ) → ℕ
shows s i j = pixel s s.memory i j

-- The rounds of a loop that starts on the screen stop at its border.
rounds-inside :
    (x w limit : ℕ)
    → x + w < 2 ^ 31
    → limit < 2 ^ 31
    → rounds x w limit ≡ (if ltb (x + w) limit then x + w else limit) - x
unfolding rounds
rounds-inside x w limit h g = ground arith

clipped :
    (x w limit i : ℕ) (n : ℕ)
    → n ≡ (if ltb (x + w) limit then x + w else limit) - x
    → i < limit
    → (leb x i && ltb i (x + n)) ≡ (leb x i && ltb i (x + w))
clipped x w limit i n e h = ground (arith, e, h)

round_inside :
    (x w limit n k : ℕ)
    → n ≡ (if ltb (x + w) limit then x + w else limit) - x
    → limit < 2 ^ 31
    → k < n
    → (x + k < limit) × (add32 x k ≡ x + k)
round_inside x w limit n k e g h = ground (arith, e, g, h)

-- The guard of the drawing functions.
drawn_on : (s : Screen) (b : Bool) {t u : Screen} → b ≡ true → t ≡ u → (if not b then s else t) ≡ u
drawn_on s true on e = e
drawn_on s false on e = ground (arith, on)

-- On a fitted screen `fb_fillrect` with a corner that is not negative sets the pixels of the
-- rectangle that lie on the screen, and no other pixel.
pub fillrect-shows :
    (s : Screen) (x y w h color i j : ℕ)
    → IsFitted s
    → s.enabled ≡ true
    → color < 2 ^ 32
    → x + w < 2 ^ 31
    → y + h < 2 ^ 31
    → i < s.width
    → j < s.height
    → shows (fillrect s x y w h color) i j
      ≡ (if leb y j && ltb j (y + h) && (leb x i && ltb i (x + w)) then color else shows s i j)
unfolding fillrect pixel
fillrect-shows s x y w h color i j f on hc hw hh hi hj =
    let n = rounds x w s.width in
    let l = rounds y h s.height in
    let nx = rounds-inside x w s.width hw f.signed.0 in
    let ly = rounds-inside y h s.height hh f.signed.1 in
    let drawn : fillrect s x y w h color
        ≡ with_memory s
            (for_below l (λ r. for_below n (λ k. paint s (add32 x k) (add32 y r) color)) s.memory) =
      drawn_on s s.enabled on (fill-area s (add32 x) (add32 y) n l color) in
    ap (λ t. shows t i j) drawn
    ∙ area-pixels s s.memory (add32 x) (add32 y) x n y l color i j f hc
        (λ k b. (round_inside x w s.width n k nx f.signed.0 b).1)
        (λ k b. (round_inside y h s.height l k ly f.signed.1 b).1)
        (λ k b. (round_inside x w s.width n k nx f.signed.0 b).0)
        (λ k b. (round_inside y h s.height l k ly f.signed.1 b).0) hi hj
    ∙ ap (λ b. if b && (leb x i && ltb i (x + n)) then color else shows s i j)
        (clipped y h s.height j l ly hj)
    ∙ ap (λ b. if leb y j && ltb j (y + h) && b then color else shows s i j)
        (clipped x w s.width i n nx hi)

all_inside :
    (w h i j : ℕ) → i < w → j < h → (leb 0 j && ltb j (0 + h) && (leb 0 i && ltb i (0 + w))) ≡ true
all_inside w h i j hi hj = ground (arith, hi, hj)

-- On a fitted screen `fb_clear` sets every pixel.
pub clear-shows :
    (s : Screen) (color i j : ℕ)
    → IsFitted s
    → s.enabled ≡ true
    → color < 2 ^ 32
    → i < s.width
    → j < s.height
    → shows (clear s color) i j ≡ color
unfolding clear pixel
clear-shows s color i j f on hc hi hj =
    let whole : clear s color
        ≡ with_memory s
            (for_below s.height (λ r. for_below s.width (λ k. paint s k r color)) s.memory) =
      drawn_on s s.enabled on (fill-area s (λ k. k) (λ r. r) s.width s.height color) in
    ap (λ t. shows t i j) whole
    ∙ area-pixels s s.memory (λ k. k) (λ r. r) 0 s.width 0 s.height color i j f hc
        (λ k b. omega arith) (λ k b. omega arith) (λ k b. omega (arith, b))
        (λ k b. omega (arith, b)) hi hj
    ∙ ap (λ b. if b then color else shows s i j) (all_inside s.width s.height i j hi hj)

-- The guard of `fb_putpixel`.
on_screen :
    (s : Screen) (x y i j : ℕ)
    → IsFitted s
    → s.enabled ≡ true
    → i < s.width
    → j < s.height
    → (((not s.enabled || is_neg x || leb s.width x || is_neg y || leb s.height y) ≡ true)
        × (((x == i) && (y == j)) ≡ false))
      ⊎ (((not s.enabled || is_neg x || leb s.width x || is_neg y || leb s.height y) ≡ false)
          × (x < s.width)
          × (y < s.height))
on_screen s x y i j f on hi hj = ground (arith, on, f.signed, hi, hj)

-- On a fitted screen `fb_putpixel` with any coordinates, negative ones and ones beyond the screen
-- included, sets the pixel that they name, if it is on the screen, and no other pixel.
pub putpixel-shows :
    (s : Screen) (x y color i j : ℕ)
    → IsFitted s
    → s.enabled ≡ true
    → color < 2 ^ 32
    → i < s.width
    → j < s.height
    → shows (putpixel s x y color) i j ≡ (if (x == i) && (y == j) then color else shows s i j)
unfolding putpixel pixel put_at paint
putpixel-shows s x y color i j f on hc hi hj = elim (on_screen s x y i j f on hi hj) [
  | inl (off, differs) ↦ rw (off, differs) refl
  | inr (in_view, hx, hy) ↦ rw in_view (pixel-paint s s.memory x y color i j f hc hx hy hi hj)
]
