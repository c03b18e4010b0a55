-- ===== src/Fbcon.antt =====
-- The console on the framebuffer, src/drivers/fbcon.c: a grid of characters, a cursor, and the
-- cursor's blinking. The console draws through the framebuffer; each such call is recorded in
-- `drawn`, newest first, and always has the colours `fg()` and `bg()`. What the calls read of other
-- modules is an argument: `enabled` is fb_is_enabled(), `now` is get_tick(). Characters are bytes.
pub mod Grid
pub mod Bounds
pub mod Reach
pub mod Cell
pub mod Tests
use neodymium.Base.{
  ℕ, suc, ◌+◌, ◌-◌, ◌*◌, ◌/◌, Bool, true, false, not, ◌&&◌, ◌||◌, List, [], ◌∷◌, leb, ltb, ◌==◌,
  if◌then◌else◌, sub32, for_below, update2,
}

abbrev pub char_w : ℕ
char_w = 10

abbrev pub char_h : ℕ
char_h = 10

abbrev pub max_cols : ℕ
max_cols = 200

abbrev pub max_rows : ℕ
max_rows = 200

abbrev pub blink_rate : ℕ
blink_rate = 125

pub data Draw : Type 0 where
  fillrect : (x y w h : ℕ) → Draw
  drawchar : (x y c : ℕ) → Draw

pub record Console : Type 0 where
  pub buf : ℕ → ℕ → ℕ
  pub cols : ℕ
  pub rows : ℕ
  pub cx : ℕ
  pub cy : ℕ
  pub visible : Bool
  pub cursor_shown : Bool
  pub cursor_blink : Bool
  pub cursor_last_toggle : ℕ
  pub cursor_x : ℕ
  pub cursor_y : ℕ
  pub drawn : List Draw

unfoldable pub draw_cell : Console → ℕ → ℕ → ℕ → Console
draw_cell k x y c = record k { drawn = drawchar (x * char_w) (y * char_h) c ∷ k.drawn }

pub cursor_show : Bool → Console → Console
cursor_show enabled k = if not k.visible || not enabled then k else record k {
  drawn = fillrect (k.cx * char_w) (k.cy * char_h) 8 8 ∷ k.drawn;
  cursor_shown = true;
  cursor_x = k.cx;
  cursor_y = k.cy;
}

pub cursor_hide : Bool → Console → Console
unfolding draw_cell
cursor_hide enabled k =
    if not k.visible || not enabled
    then k
    else if k.cursor_shown
    then record (draw_cell k k.cursor_x k.cursor_y (k.buf k.cursor_y k.cursor_x)) {
      cursor_shown = false;
    }
    else k

-- The loop variable of the outer loop counts from 0, where the source's counts from 1.
pub scroll_buf : (ℕ → ℕ → ℕ) → (rows cols : ℕ) → ℕ → ℕ → ℕ
scroll_buf b rows cols =
    for_below cols (λ x a. update2 a (rows - 1) x b' ')
      (for_below (rows - 1) (λ y a. for_below cols (λ x c. update2 c y x (c (suc y) x)) a) b)

unfoldable pub scroll : Console → Console
scroll k = record k { buf = scroll_buf k.buf k.rows k.cols; cy = k.cy - 1 }

-- `fbcon_init`; `old` is the state before it.
pub init : Console → Console
init old = record old {
  buf = for_below max_rows (λ y b. for_below max_cols (λ x a. update2 a y x b' ') b) old.buf;
  cols = 80;
  rows = 25;
  cx = 0;
  cy = 0;
  visible = false;
  cursor_shown = false;
  cursor_blink = false;
  cursor_last_toggle = 0;
}

-- `if (n < 1) n = 1; if (n > most) n = most;`
pub clamp : ℕ → ℕ → ℕ
clamp n most = let m = if ltb n 1 then 1 else n in if ltb most m then most else m

pub resize : (fw fh : ℕ) → Console → Console
resize fw fh k =
    if ltb fw 1 || ltb fh 1
    then k
    else (let cols = clamp (fw / char_w) max_cols in
        let rows = clamp (fh / char_h) max_rows in
        record k {
          cols = cols;
          rows = rows;
          cx = if leb cols k.cx then cols - 1 else k.cx;
          cy = if leb rows k.cy then rows - 1 else k.cy;
          cursor_shown = false;
        })

pub redraw : Bool → Console → Console
redraw enabled k =
    if not enabled
    then k
    else (let k1 =
          for_below k.rows (λ y s. for_below k.cols (λ x t. draw_cell t x y (k.buf y x)) s) k in
        let k2 = record k1 { cursor_shown = false } in
        if k.cursor_blink then cursor_show enabled k2 else k2)

-- One cell to the left, round to the end of the row above.
unfoldable pub step_left : Console → Console
step_left k =
    if ltb 0 k.cx
    then record k { cx = k.cx - 1 }
    else if ltb 0 k.cy
    then record k { cy = k.cy - 1; cx = k.cols - 1 }
    else k

-- A character in the cell under the cursor, drawn if the console is visible.
unfoldable pub write_cell : Console → ℕ → Console
write_cell k c =
    let k1 = record k { buf = update2 k.buf k.cy k.cx c } in
    if k.visible then draw_cell k1 k.cx k.cy c else k1

-- The branches of `fbcon_putchar` on the character.
unfoldable pub place : Console → ℕ → Console
place k c =
    if c == b'\n'
    then record k { cx = 0; cy = k.cy + 1 }
    else if c == b'\r'
    then record k { cx = 0 }
    else if c == 8
    then write_cell (step_left k) b' '
    else if c == b'\t'
    then record k { cx = (k.cx + 4) / 4 * 4 }
    else (let k1 = write_cell k c in record k1 { cx = k1.cx + 1 })

unfoldable pub wrap : Console → Console
wrap k = if leb k.cols k.cx then record k { cx = 0; cy = k.cy + 1 } else k

unfoldable pub roll : Bool → Console → Console
roll enabled k =
    if leb k.rows k.cy
    then (let k1 = scroll k in if k.visible then redraw enabled k1 else k1)
    else k

unfoldable pub putchar : (enabled : Bool) (now : ℕ) → Console → ℕ → Console
putchar enabled now k c =
    if k.cols == 0 || k.rows == 0
    then k
    else (let k1 = roll enabled (wrap (place (cursor_hide enabled k) c)) in
        cursor_show enabled (record k1 { cursor_blink = true; cursor_last_toggle = now }))

unfoldable pub set_visible : (now : ℕ) → Bool → Console → Console
set_visible now v k =
    let k1 = record k { visible = v } in
    if v then record k1 { cursor_blink = true; cursor_last_toggle = now } else k1

pub move_up : Console → Console
move_up k = if ltb 0 k.cy then record k { cy = k.cy - 1 } else k

pub move_down : Console → Console
move_down k = if ltb k.cy (k.rows - 1) then record k { cy = k.cy + 1 } else k

unfoldable pub step_right : Console → Console
step_right k =
    if ltb k.cx (k.cols - 1)
    then record k { cx = k.cx + 1 }
    else if ltb k.cy (k.rows - 1)
    then record k { cy = k.cy + 1; cx = 0 }
    else k

-- `fbcon_cursor_up` and its three siblings hide the cursor, move it and show it.
pub cursor_up : Bool → Console → Console
cursor_up enabled k = cursor_show enabled (move_up (cursor_hide enabled k))

pub cursor_down : Bool → Console → Console
cursor_down enabled k = cursor_show enabled (move_down (cursor_hide enabled k))

pub cursor_left : Bool → Console → Console
cursor_left enabled k = cursor_show enabled (step_left (cursor_hide enabled k))

pub cursor_right : Bool → Console → Console
cursor_right enabled k = cursor_show enabled (step_right (cursor_hide enabled k))

pub tick : (enabled : Bool) (now : ℕ) → Console → Console
tick enabled now k =
    if not k.visible
    then record (cursor_hide enabled k) { cursor_blink = false }
    else if leb blink_rate (sub32 now k.cursor_last_toggle)
    then (let k1 = record k { cursor_last_toggle = now; cursor_blink = not k.cursor_blink } in
        if k1.cursor_blink then cursor_show enabled k1 else cursor_hide enabled k1)
    else k
