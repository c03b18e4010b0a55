-- ===== src/Framebuffer/Chars.antt =====
-- `fb_drawchar` against `fb_putpixel`.
use neodymium.Base.{
  ℕ, ◌≤◌, ◌≡◌, Bool, true, false, not, ◌&&◌, ◌||◌, ltb, if◌then◌else◌, add32, arith, for_below,
  for_below-agree, for_below-keeps, if_keeps,
}
use neodymium.Framebuffer.{Screen, put_at, putpixel, is_neg, char_pixel, drawchar, glyph_color}

abbrev IsOn : Screen → Type 0
IsOn s = s.enabled ≡ true

char_pixel-IsOn : (s : Screen) (x y color : ℕ) → IsOn s → IsOn (char_pixel s x y color)
unfolding char_pixel put_at
char_pixel-IsOn s x y color on =
    if_keeps IsOn (not (is_neg x) && ltb x s.width && not (is_neg y) && ltb y s.height) on on

char_pixel-putpixel :
    (s : Screen) (x y color : ℕ) → IsOn s → char_pixel s x y color ≡ putpixel s x y color
unfolding char_pixel putpixel
char_pixel-putpixel s x y color on = ground (arith, on)

line-IsOn :
    (s : Screen) (x y c row fg bg n : ℕ)
    → IsOn s
    → IsOn (
        for_below n
          (λ col u. char_pixel u (add32 x col) (add32 y row) (glyph_color c row col fg bg))
          s)
line-IsOn s x y c row fg bg n on =
    for_below-keeps IsOn n
      (λ col u. char_pixel u (add32 x col) (add32 y row) (glyph_color c row col fg bg)) s
      (λ col u h. char_pixel-IsOn u (add32 x col) (add32 y row) (glyph_color c row col fg bg) h) on

-- A glyph of `l` lines with `n` pixels each.
glyph-putpixel :
    (s : Screen) (x y c fg bg n l : ℕ)
    → IsOn s
    → for_below l
        (λ row t.
          for_below n
            (λ col u. char_pixel u (add32 x col) (add32 y row) (glyph_color c row col fg bg))
            t)
        s
      ≡ for_below l
          (λ row t.
            for_below n
              (λ col u. putpixel u (add32 x col) (add32 y row) (glyph_color c row col fg bg))
              t)
          s
glyph-putpixel s x y c fg bg n l on =
    let color = λ (row col : ℕ). glyph_color c row col fg bg in
    for_below-agree IsOn l
      (λ row t. for_below n (λ col u. char_pixel u (add32 x col) (add32 y row) (color row col)) t)
      (λ row t. for_below n (λ col u. putpixel u (add32 x col) (add32 y row) (color row col)) t) s
      (λ row t h. line-IsOn t x y c row fg bg n h)
      (λ row t h.
        for_below-agree IsOn n (λ col u. char_pixel u (add32 x col) (add32 y row) (color row col))
          (λ col u. putpixel u (add32 x col) (add32 y row) (color row col)) t
          (λ col u g. char_pixel-IsOn u (add32 x col) (add32 y row) (color row col) g)
          (λ col u g. char_pixel-putpixel u (add32 x col) (add32 y row) (color row col) g) h)
      on

printable :
    (b : Bool) (c : ℕ)
    → b ≡ true
    → 0x20 ≤ c
    → c ≤ 0x7E
    → (not b || ltb c 0x20 || ltb 0x7E c) ≡ false
printable b c on lo hi = ground (arith, on, lo, hi)

passed : (b : Bool) (s : Screen) {t u : Screen} → b ≡ false → t ≡ u → (if b then s else t) ≡ u
passed true s off e = ground (arith, off)
passed false s off e = e

-- On an enabled screen `fb_drawchar` of a printable character is a `fb_putpixel` for each of the
-- 64 pixels of the glyph, in the foreground where the glyph has its bit and in the background where
-- it has not, so that a character that lies partly beside the screen is cut at its border.
pub drawchar-putpixel :
    (s : Screen) (x y c fg bg : ℕ)
    → s.enabled ≡ true
    → 0x20 ≤ c
    → c ≤ 0x7E
    → drawchar s x y c fg bg
      ≡ for_below 8
          (λ row t.
            for_below 8
              (λ col u. putpixel u (add32 x col) (add32 y row) (glyph_color c row col fg bg))
              t)
          s
unfolding drawchar
drawchar-putpixel s x y c fg bg on lo hi =
    passed (not s.enabled || ltb c 0x20 || ltb 0x7E c) s (printable s.enabled c on lo hi)
      (glyph-putpixel s x y c fg bg 8 8 on)
