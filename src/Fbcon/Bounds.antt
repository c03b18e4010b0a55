-- ===== src/Fbcon/Bounds.antt =====
-- The console's invariant: the cursor, shown or not, stays in the grid, and the grid in its array.
use neodymium.Base.{ℕ, ◌≤◌, ◌<◌, ◌≡◌, Bool, true, false, not, arith, for_below, for_below-keeps}
use neodymium.Fbcon.{
  Console, max_cols, max_rows, draw_cell, cursor_show, cursor_hide, scroll, clamp, init, resize,
  redraw, step_left, step_right, write_cell, place, wrap, roll, putchar, move_up, move_down,
  cursor_up, cursor_down, cursor_left, cursor_right, tick,
}

-- The size of the grid, and the cell where the cursor was drawn last.
pub record IsSized (k : Console) : Type 0 where
  pub cols_pos : 1 ≤ k.cols
  pub cols_max : k.cols ≤ max_cols
  pub rows_pos : 1 ≤ k.rows
  pub rows_max : k.rows ≤ max_rows
  pub cursor_x_in : k.cursor_x < max_cols
  pub cursor_y_in : k.cursor_y < max_rows

pub record IsValid (k : Console) : Type 0 where
  pub sized : IsSized k
  pub cx_in : k.cx < k.cols
  pub cy_in : k.cy < k.rows

pub draw_cell-IsValid : {k : Console} (x y c : ℕ) → IsValid k → IsValid (draw_cell k x y c)
unfolding draw_cell
draw_cell-IsValid x y c h = ground (arith, h.sized)

pub cursor_show-IsValid :
    {k : Console} (enabled : Bool) → IsValid k → IsValid (cursor_show enabled k)
unfolding cursor_show
cursor_show-IsValid {k} enabled h = ground (arith, h.sized)

pub cursor_hide-IsValid :
    {k : Console} (enabled : Bool) → IsValid k → IsValid (cursor_hide enabled k)
unfolding cursor_hide draw_cell
cursor_hide-IsValid {k} enabled h = ground (arith, h.sized)

pub redraw-IsValid : {k : Console} (enabled : Bool) → IsValid k → IsValid (redraw enabled k)
unfolding redraw
redraw-IsValid {k} enabled h =
    let drawn =
      for_below-keeps IsValid k.rows
        (λ y s. for_below k.cols (λ x t. draw_cell t x y (k.buf y x)) s) k
        (λ y s v.
          for_below-keeps IsValid k.cols (λ x t. draw_cell t x y (k.buf y x)) s
            (λ x t w. draw_cell-IsValid x y (k.buf y x) w) v)
        h in
    let k1 = for_below k.rows (λ y s. for_below k.cols (λ x t. draw_cell t x y (k.buf y x)) s) k in
    let off : IsValid (record k1 { cursor_shown = false }) = ground (arith, drawn) in
    ground (arith, off, cursor_show-IsValid enabled off, h)

pub step_left-IsValid : {k : Console} → IsValid k → IsValid (step_left k)
unfolding step_left
step_left-IsValid {k} h = ground (arith, h.sized)

pub step_right-IsValid : {k : Console} → IsValid k → IsValid (step_right k)
unfolding step_right
step_right-IsValid {k} h = ground (arith, h.sized)

pub write_cell-IsValid : {k : Console} (c : ℕ) → IsValid k → IsValid (write_cell k c)
unfolding write_cell draw_cell
write_cell-IsValid {k} c h = ground (arith, h.sized)

-- A character leaves the cursor in the grid, one column behind it, or one row below it.
pub record IsPlaced (k : Console) : Type 0 where
  sized : IsSized k
  pub row_in : k.cy ≤ k.rows
  row_last : k.cols ≤ k.cx → k.cy < k.rows

pub place-IsPlaced : {k : Console} (c : ℕ) → IsValid k → IsPlaced (place k c)
unfolding place
place-IsPlaced {k} c h =
    ground (arith, h.sized, write_cell-IsValid c h, write_cell-IsValid b' ' (step_left-IsValid h))

pub record IsWrapped (k : Console) : Type 0 where
  sized : IsSized k
  col_in : k.cx < k.cols
  pub row_in : k.cy ≤ k.rows

pub wrap-IsWrapped : {k : Console} → IsPlaced k → IsWrapped (wrap k)
unfolding wrap
wrap-IsWrapped {k} h = ground (arith, h.sized)

scroll-IsValid : {k : Console} → IsWrapped k → k.cy ≡ k.rows → IsValid (scroll k)
unfolding scroll
scroll-IsValid {k} h e = ground (arith, h.sized)

roll-IsValid : {k : Console} (enabled : Bool) → IsWrapped k → IsValid (roll enabled k)
unfolding roll
roll-IsValid {k} enabled h = ground (
  arith,
  h.sized,
  scroll-IsValid h,
  λ (e : k.cy ≡ k.rows). redraw-IsValid enabled (scroll-IsValid h e),
)

-- On a valid console any character leaves the cursor in the grid, whatever it is and whether or not it scrolls.
pub putchar-IsValid :
    {k : Console} (enabled : Bool) (now c : ℕ) → IsValid k → IsValid (putchar enabled now k c)
unfolding putchar
putchar-IsValid {k} enabled now c h =
    let hidden = cursor_hide-IsValid enabled h in
    let rolled = roll-IsValid enabled (wrap-IsWrapped (place-IsPlaced c hidden)) in
    let k1 = roll enabled (wrap (place (cursor_hide enabled k) c)) in
    let k2 = record k1 { cursor_blink = true; cursor_last_toggle = now } in
    let v2 : IsValid k2 = ground (arith, rolled, rolled.sized) in
    ground (arith, h, cursor_show-IsValid enabled v2)

-- On a valid console a resize to any width and height gives a grid of 1 to 200 columns and rows, with the cursor in it.
pub resize-IsValid : {k : Console} (fw fh : ℕ) → IsValid k → IsValid (resize fw fh k)
unfolding resize clamp
resize-IsValid {k} fw fh h = ground (arith, h.sized)

pub init-IsValid : (k : Console) → k.cursor_x < max_cols → k.cursor_y < max_rows → IsValid (init k)
unfolding init
init-IsValid k h1 h2 = record {
  sized = record {
    cols_pos = omega arith;
    cols_max = omega arith;
    rows_pos = omega arith;
    rows_max = omega arith;
    cursor_x_in = h1;
    cursor_y_in = h2;
  };
  cx_in = omega arith;
  cy_in = omega arith;
}

-- The timer's tick keeps a valid console valid: its cursor stays in the grid.
pub tick-IsValid :
    {k : Console} (enabled : Bool) (now : ℕ) → IsValid k → IsValid (tick enabled now k)
unfolding tick
tick-IsValid {k} enabled now h =
    let hidden = cursor_hide-IsValid enabled h in
    let k1 = record k { cursor_last_toggle = now; cursor_blink = not k.cursor_blink } in
    let v1 : IsValid k1 = ground (arith, h, h.sized) in
    ground (
      arith,
      h,
      hidden,
      hidden.sized,
      cursor_show-IsValid enabled v1,
      cursor_hide-IsValid enabled v1,
    )

move_up-IsValid : {k : Console} → IsValid k → IsValid (move_up k)
unfolding move_up
move_up-IsValid {k} h = ground (arith, h.sized)

move_down-IsValid : {k : Console} → IsValid k → IsValid (move_down k)
unfolding move_down
move_down-IsValid {k} h = ground (arith, h.sized)

-- The four cursor keys keep a valid console's cursor in the grid, at its edges too.
pub cursor_keys-IsValid :
    {k : Console} (enabled : Bool)
    → IsValid k
    → IsValid (cursor_up enabled k)
      × IsValid (cursor_down enabled k)
      × IsValid (cursor_left enabled k)
      × IsValid (cursor_right enabled k)
unfolding cursor_up cursor_down cursor_left cursor_right
cursor_keys-IsValid enabled h =
    let hidden = cursor_hide-IsValid enabled h in
    (
      cursor_show-IsValid enabled (move_up-IsValid hidden),
      cursor_show-IsValid enabled (move_down-IsValid hidden),
      cursor_show-IsValid enabled (step_left-IsValid hidden),
      cursor_show-IsValid enabled (step_right-IsValid hidden),
    )
