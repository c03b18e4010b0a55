-- ===== src/Framebuffer/Glyph.antt =====
-- The pixels of a character on the screen, `fb_drawchar` of src/kernel/framebuffer.c.
use native.Mathlib.Nat.{one-le-pow}
use neodymium.Base.{
  ℕ, zero, suc, ◌+◌, ◌-◌, ◌*◌, ◌/◌, ◌%◌, ◌^◌, ◌<◌, ◌≤◌, ◌≡◌, refl, sym, ap, ◌∙◌, Bool, true, false,
  not, ◌&&◌, ◌||◌, ltb, leb, ◌==◌, if◌then◌else◌, add32, arith, for_below, for_below-keeps,
  if_keeps, bit_and, get_or, [], Bool-cases, inl, inr,
}
use neodymium.Base.Bits.{bit_and_high, bit_and-one}
use neodymium.Framebuffer.Font.{fb_font}
use neodymium.Framebuffer.{Screen, put_at, putpixel, is_neg, drawchar, glyph_row, glyph_color}
use neodymium.Framebuffer.Pixels.{IsFitted}
use neodymium.Framebuffer.Shapes.{shows, putpixel-shows}
use neodymium.Framebuffer.Chars.{drawchar-putpixel}

-- The glyph of the character has a dot in the row and column: the rows of the font are bytes, with the
-- leftmost column in the highest bit, and the first glyph is that of the space.
abbrev pub has_dot : (c row col : ℕ) → Bool
has_dot c row col = get_or (get_or fb_font (c - 32) []) row 0 / 2 ^ (7 - col) % 2 == 1

glyph_color-has_dot :
    (c row col fg bg : ℕ) → glyph_color c row col fg bg ≡ (if has_dot c row col then fg else bg)
unfolding glyph_color glyph_row
glyph_color-has_dot c row col fg bg =
    let w = get_or (get_or fb_font (c - 32) []) row 0 in
    let p = 2 ^ (7 - col) in
    let one : 1 * p ≡ p = omega arith in
    let masked : bit_and w p ≡ w / p % 2 * p =
      ap (bit_and w) (sym one)
      ∙ bit_and_high (7 - col) w 1
      ∙ ap (λ b. b * p) (bit_and-one (w / p)) in
    dot (bit_and w p) (w / p % 2) p masked (omega arith) (one-le-pow (7 - col) 2 (omega arith))
  where
    dot :
        (m b p : ℕ)
        → m ≡ b * p
        → b < 2
        → 1 ≤ p
        → (if m == 0 then bg else fg) ≡ (if b == 1 then fg else bg)
    dot m zero p e h pos = ground (arith, e)
    dot m (suc zero) p e h pos = ground (arith, e)
    dot m (suc (suc b)) p e h pos = absurd (omega arith)

-- A state on the way: the screen with other pixels.
record Same (s t : Screen) : Type 0 where
  fitted : IsFitted t
  enabled : t.enabled ≡ true
  width : t.width ≡ s.width
  height : t.height ≡ s.height

putpixel-Same : (s t : Screen) (x y color : ℕ) → Same s t → Same s (putpixel t x y color)
unfolding putpixel put_at
putpixel-Same s t x y color h =
    if_keeps (Same s) (not t.enabled || is_neg x || leb t.width x || is_neg y || leb t.height y) h
      record {
        fitted = record {
          deep = h.fitted.deep;
          wide = h.fitted.wide;
          inside = h.fitted.inside;
          signed = h.fitted.signed;
        };
        enabled = h.enabled;
        width = h.width;
        height = h.height;
      }

-- A line of pixels, and lines of them.
abbrev dots : (x y n : ℕ) (color : ℕ → ℕ) → Screen → Screen
dots x y n color = for_below n (λ col u. putpixel u (add32 x col) y (color col))

dots-Same : (s t : Screen) (x y n : ℕ) (color : ℕ → ℕ) → Same s t → Same s (dots x y n color t)
dots-Same s t x y n color =
    for_below-keeps (Same s) n (λ col u. putpixel u (add32 x col) y (color col)) t
      (λ col u h. putpixel-Same s u (add32 x col) y (color col) h)

-- One more column or row.
one_more :
    (x n i : ℕ) (b : Bool) (color : ℕ → ℕ) (old : ℕ)
    → (if (x + n == i) && b
        then color n
        else (if b && (leb x i && ltb i (x + n)) then color (i - x) else old))
      ≡ (if b && (leb x i && ltb i (x + suc n)) then color (i - x) else old)
one_more x n i false color old = ground arith
one_more x n i true color old = elim (Bool-cases (x + n == i)) [
  | inl same ↦
      let d : n ≡ i - x = ground (arith, same) in
      let inside : (leb x i && ltb i (x + suc n)) ≡ true = ground (arith, same) in
      rw (same, inside) (ap color d)
  | inr other ↦
      let as_before : ltb i (x + suc n) ≡ ltb i (x + n) = ground (arith, other) in
      rw (other, as_before) refl
]

line-shows :
    (s t : Screen) (x y n : ℕ) (color : ℕ → ℕ) (i j : ℕ)
    → Same s t
    → ((k : ℕ) → color k < 2 ^ 32)
    → x + n < 2 ^ 32
    → i < s.width
    → j < s.height
    → shows (dots x y n color t) i j
      ≡ (if (y == j) && (leb x i && ltb i (x + n)) then color (i - x) else shows t i j)
line-shows s t x y zero color i j h hc hx hi hj = ground arith
line-shows s t x y (suc n) color i j h hc hx hi hj =
    let u = dots x y n color t in
    let k = dots-Same s t x y n color h in
    let here : add32 x n ≡ x + n = omega arith in
    let before = line-shows s t x y n color i j h hc (omega arith) hi hj in
    putpixel-shows u (add32 x n) y (color n) i j k.fitted k.enabled (hc n) (omega (arith, k.width))
      (omega (arith, k.height))
    ∙ ap (λ a. if (a == i) && (y == j) then color n else shows u i j) here
    ∙ ap (λ p. if (x + n == i) && (y == j) then color n else p) before
    ∙ one_more x n i (y == j) color (shows t i j)

lines-shows :
    (s t : Screen) (x y n l : ℕ) (color : ℕ → ℕ → ℕ) (i j : ℕ)
    → Same s t
    → ((r k : ℕ) → color r k < 2 ^ 32)
    → x + n < 2 ^ 32
    → y + l < 2 ^ 32
    → i < s.width
    → j < s.height
    → shows (for_below l (λ r. dots x (add32 y r) n (color r)) t) i j ≡ (
        if (leb x i && ltb i (x + n)) && (leb y j && ltb j (y + l))
        then color (j - y) (i - x)
        else shows t i j)
lines-shows s t x y n zero color i j h hc hx hy hi hj = ground arith
lines-shows s t x y n (suc l) color i j h hc hx hy hi hj =
    let u = for_below l (λ r. dots x (add32 y r) n (color r)) t in
    let k : Same s u =
      for_below-keeps (Same s) l (λ r. dots x (add32 y r) n (color r)) t
        (λ r v g. dots-Same s v x (add32 y r) n (color r) g) h in
    let here : add32 y l ≡ y + l = omega arith in
    let inside = leb x i && ltb i (x + n) in
    let before = lines-shows s t x y n l color i j h hc hx (omega arith) hi hj in
    line-shows s u x (add32 y l) n (color l) i j k (hc l) hx hi hj
    ∙ ap (λ a. if (a == j) && inside then color l (i - x) else shows u i j) here
    ∙ ap (λ p. if (y + l == j) && inside then color l (i - x) else p) before
    ∙ one_more y l j inside (λ r. color r (i - x)) (shows t i j)

colored : (c fg bg : ℕ) → fg < 2 ^ 32 → bg < 2 ^ 32 → (r k : ℕ) → glyph_color c r k fg bg < 2 ^ 32
unfolding glyph_color
colored c fg bg hf hb r k =
    if_keeps (λ n. n < 2 ^ 32) (bit_and (glyph_row c r) (2 ^ (7 - k)) == 0) hb hf

-- On a fitted screen `fb_drawchar` of a printable character at a corner that is not negative sets the
-- pixels of an 8 by 8 square that lie on the screen, in the foreground where the glyph has a dot and
-- in the background where it has none, and no other pixel.
pub drawchar-shows :
    (s : Screen) (x y c fg bg i j : ℕ)
    → IsFitted s
    → s.enabled ≡ true
    → 0x20 ≤ c
    → c ≤ 0x7E
    → fg < 2 ^ 32
    → bg < 2 ^ 32
    → x + 8 < 2 ^ 31
    → y + 8 < 2 ^ 31
    → i < s.width
    → j < s.height
    → shows (drawchar s x y c fg bg) i j ≡ (
        if (leb x i && ltb i (x + 8)) && (leb y j && ltb j (y + 8))
        then (if has_dot c (j - y) (i - x) then fg else bg)
        else shows s i j)
drawchar-shows s x y c fg bg i j f on lo hi hf hb hx hy hi' hj =
    let start : Same s s = record { fitted = f; enabled = on; width = refl; height = refl } in
    let inside = (leb x i && ltb i (x + 8)) && (leb y j && ltb j (y + 8)) in
    ap (λ t. shows t i j) (drawchar-putpixel s x y c fg bg on lo hi)
    ∙ lines-shows s s x y 8 8 (λ r k. glyph_color c r k fg bg) i j start (colored c fg bg hf hb)
        (omega arith) (omega arith) hi' hj
    ∙ ap (λ d. if inside then d else shows s i j) (glyph_color-has_dot c (j - y) (i - x) fg bg)
