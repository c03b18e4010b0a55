-- ===== src/Framebuffer.antt =====
-- The framebuffer, src/drivers/framebuffer.c: pixels in memory, rectangles and characters. A
-- coordinate is an `int` as its word: negative from 2 ^ 31 on. The memory is an array of bytes, where a
-- pixel is four of them, lowest first.
mod Font
mod Display
pub mod Pixels
pub mod Shapes
pub mod Chars
pub mod Glyph
mod Tests
use neodymium.Base.{
  ℕ, zero, suc, ◌+◌, ◌-◌, ◌*◌, ◌/◌, ◌%◌, ◌^◌, bit_and, bit_or, Bool, true, false, not, ◌&&◌, ◌||◌,
  List, [], ◌∷◌, ltb, leb, ◌==◌, if◌then◌else◌, u32, add32, for_below, get_or,
}
use neodymium.Framebuffer.Font.{fb_font}

-- The static variables, and the memory.
pub record Screen : Type 0 where
  pub memory : ℕ → ℕ
  pub ptr : ℕ
  pub width : ℕ
  pub height : ℕ
  pub pitch : ℕ
  pub bpp : ℕ
  pub enabled : Bool

-- A write of an `unsigned int` to memory.
pub store32 : (ℕ → ℕ) → (a v : ℕ) → ℕ → ℕ
store32 m a v j =
    if j == a
    then v % 256
    else if j == a + 1
    then v / 256 % 256
    else if j == a + 2
    then v / 65536 % 256
    else if j == a + 3
    then v / 16777216 % 256
    else m j

-- Tests on an `int` as its word.
abbrev pub is_neg : ℕ → Bool
is_neg x = leb 0x80000000 x

abbrev pub slt : ℕ → ℕ → Bool
slt a b = ltb (add32 a 0x80000000) (add32 b 0x80000000)

-- `*(unsigned int *)(fb_ptr + offset) = color` at a pixel.
pub put_at : Screen → (x y color : ℕ) → Screen
put_at s x y color =
    let offset = u32 (y * s.pitch + x * (s.bpp / 8)) in
    record s { memory = store32 s.memory (add32 s.ptr offset) color }

pub putpixel : Screen → (x y color : ℕ) → Screen
putpixel s x y color =
    if not s.enabled || is_neg x || leb s.width x || is_neg y || leb s.height y
    then s
    else put_at s x y color

-- The rounds of `for (int i = from; i < from + len && i < (int)limit; i++)`.
pub rounds : (from len limit : ℕ) → ℕ
rounds from len limit =
    let stop = if slt (add32 from len) limit then add32 from len else limit in
    add32 stop 0x80000000 - add32 from 0x80000000

pub fillrect : Screen → (x y w h color : ℕ) → Screen
fillrect s x y w h color =
    if not s.enabled
    then s
    else for_below (rounds y h s.height)
        (λ row t.
          for_below (rounds x w s.width) (λ col u. put_at u (add32 x col) (add32 y row) color) t)
        s

-- A row of a glyph; the bits are 0x80 for column 0 down to 1 for column 7.
pub glyph_row : (c row : ℕ) → ℕ
glyph_row c row = get_or (get_or fb_font (c - 0x20) []) row 0

pub glyph_color : (c row col fg bg : ℕ) → ℕ
glyph_color c row col fg bg = if bit_and (glyph_row c row) (2 ^ (7 - col)) == 0 then bg else fg

-- One pixel of a character, where it lies on the screen.
pub char_pixel : Screen → (px py color : ℕ) → Screen
char_pixel s px py color =
    if not (is_neg px) && ltb px s.width && not (is_neg py) && ltb py s.height
    then put_at s px py color
    else s

-- A `char` is a byte; from 0x80 on it is negative, so that it is no printed character either.
pub drawchar : Screen → (x y c fg bg : ℕ) → Screen
drawchar s x y c fg bg =
    if not s.enabled || ltb c 0x20 || ltb 0x7E c
    then s
    else for_below 8
        (λ row t.
          for_below 8
            (λ col u. char_pixel u (add32 x col) (add32 y row) (glyph_color c row col fg bg)) t)
        s

-- The loop of `fb_drawstring`, at column `cx`.
pub draw_chars : Screen → (cx y : ℕ) → List ℕ → (fg bg : ℕ) → Screen
draw_chars s cx y [] fg bg = s
draw_chars s cx y (c ∷ cs) fg bg = draw_chars (drawchar s cx y c fg bg) (add32 cx 10) y cs fg bg

pub drawstring : Screen → (x y : ℕ) → List ℕ → (fg bg : ℕ) → Screen
drawstring s x y cs fg bg = if not s.enabled then s else draw_chars s x y cs fg bg

pub clear : Screen → (color : ℕ) → Screen
clear s color =
    if not s.enabled
    then s
    else for_below s.height (λ y t. for_below s.width (λ x u. put_at u x y color) t) s

-- The arguments are bytes.
pub rgb : (r g b : ℕ) → ℕ
rgb r g b = bit_or (bit_or (bit_or 0xFF000000 (r * 65536)) (g * 256)) b
