-- ===== src/Vga/Agree.antt =====
-- The two consoles agree: the VGA's is the framebuffer's at 80 columns and 25 rows.
use neodymium.Base.{
  ℕ, suc, ◌+◌, ◌-◌, ◌*◌, ◌≤◌, ◌<◌, ◌≡◌, refl, ◌∙◌, Bool, true, false, ◌&&◌, ◌||◌, List, [], ◌∷◌,
  arith, ◌==◌, update, update2, Bool-cases, inl, inr,
}
use neodymium.Fbcon
use neodymium.Fbcon.{Console}
use neodymium.Fbcon.Bounds
use neodymium.Fbcon.Grid
use neodymium.Fbcon.Grid.{
  SameText, SameText-refl, SameText-trans, draw_cell-SameText, cursor_show-SameText,
  cursor_hide-SameText, redraw-SameText, scroll_buf_lem,
}
use neodymium.Vga
use neodymium.Vga.Text.{scroll_buffer_lem}
use neodymium.Vga.{Vga, vga_width, vga_height, vga_entry, scroll_buffer, update_cursor}

-- The VGA shows the console's text: the same size, cursor and characters, in the VGA's colour.
pub record Shows (k : Console) (v : Vga) : Type 0 where
  pub cols_eq : k.cols ≡ vga_width
  pub rows_eq : k.rows ≡ vga_height
  pub cx_eq : k.cx ≡ v.column
  pub cy_eq : k.cy ≡ v.row
  pub cells :
      (y x : ℕ)
      → y < vga_height
      → x < vga_width
      → v.buffer (y * vga_width + x) ≡ vga_entry (k.buf y x) v.color

Shows-SameText : {k t : Console} {v : Vga} → Fbcon.Grid.SameText k t → Shows k v → Shows t v
Shows-SameText {k} {t} {v} same s = record {
  cols_eq = same.cols_eq ∙ s.cols_eq;
  rows_eq = same.rows_eq ∙ s.rows_eq;
  cx_eq = same.cx_eq ∙ s.cx_eq;
  cy_eq = same.cy_eq ∙ s.cy_eq;
  cells = λ y x hy hx. rw same.buf_eq (s.cells y x hy hx);
}

step_left-Shows : {k : Console} {v : Vga} → Shows k v → Shows (Fbcon.step_left k) (Vga.step_left v)
unfolding Fbcon.step_left Vga.step_left
step_left-Shows {k} {v} s = ground (arith, s)

step_right-Shows :
    {k : Console} {v : Vga} → Shows k v → Shows (Fbcon.step_right k) (Vga.step_right v)
unfolding Fbcon.step_right Vga.step_right
step_right-Shows {k} {v} s = ground (arith, s)

cell_written :
    (b : ℕ → ℕ → ℕ) (a : ℕ → ℕ) (cy cx row col c color y x : ℕ)
    → cy ≡ row
    → cx ≡ col
    → col < vga_width
    → x < vga_width
    → a (y * vga_width + x) ≡ vga_entry (b y x) color
    → update a (row * vga_width + col) (vga_entry c color) (y * vga_width + x)
      ≡ vga_entry (update2 b cy cx c y x) color
cell_written b a cy cx row col c color y x er ec hc hx e =
    elim (Bool-cases ((y == cy) && (x == cx))) [
      | inl here ↦
          let same : (row * vga_width + col == y * vga_width + x) ≡ true = ground arith in
          rw (here, same) refl
      | inr other ↦
          let apart : (row * vga_width + col == y * vga_width + x) ≡ false = ground arith in
          rw (other, apart) e
    ]

write_cell-Shows :
    {k : Console} {v : Vga} (c : ℕ)
    → Fbcon.Bounds.IsValid k
    → Shows k v
    → Shows (Fbcon.write_cell k c) (Vga.write_cell v c)
unfolding Fbcon.write_cell Vga.write_cell Fbcon.draw_cell
write_cell-Shows {k} {v} c h s =
    let k1 = record k { buf = update2 k.buf k.cy k.cx c } in
    let v1 = record v {
      buffer = update v.buffer (v.row * vga_width + v.column) (vga_entry c v.color);
    } in
    let s1 : Shows k1 v1 = record {
      cols_eq = s.cols_eq;
      rows_eq = s.rows_eq;
      cx_eq = s.cx_eq;
      cy_eq = s.cy_eq;
      cells = λ y x hy hx.
          cell_written k.buf v.buffer k.cy k.cx v.row v.column c v.color y x s.cy_eq s.cx_eq
            (omega (arith, s.cx_eq, s.cols_eq, h.cx_in)) hx (s.cells y x hy hx);
    } in
    let drawn = Shows-SameText (draw_cell-SameText k.cx k.cy c (SameText-refl k1)) s1 in
    ground (arith, s1, drawn)

wrap-Shows : {k : Console} {v : Vga} → Shows k v → Shows (Fbcon.wrap k) (Vga.wrap v)
unfolding Fbcon.wrap Vga.wrap
wrap-Shows {k} {v} s = ground (arith, s)

place-Shows :
    {k : Console} {v : Vga} (c : ℕ)
    → Fbcon.Bounds.IsValid k
    → Shows k v
    → Shows (Fbcon.place k c) (Vga.place v c)
unfolding Fbcon.place Vga.place
place-Shows {k} {v} c h s =
    let back = write_cell-Shows b' ' (Fbcon.Bounds.step_left-IsValid h) (step_left-Shows s) in
    let wrote = write_cell-Shows c h s in ground (arith, s, back, wrote)

cell_scrolled :
    (b : ℕ → ℕ → ℕ) (a : ℕ → ℕ) (rows cols color y x : ℕ)
    → rows ≡ vga_height
    → cols ≡ vga_width
    → y < vga_height
    → x < vga_width
    → ((j i : ℕ) → j < vga_height → i < vga_width → a (j * vga_width + i) ≡ vga_entry (b j i) color)
    → scroll_buffer a color (y * vga_width + x) ≡ vga_entry (Fbcon.scroll_buf b rows cols y x) color
cell_scrolled b a rows cols color y x er ec hy hx e = elim (Bool-cases (suc y == vga_height)) [
  | inl last ↦ rw (scroll_buffer_lem a color y x hy hx) (
      rw
        (scroll_buf_lem b rows cols y x (omega (arith, er)) (omega (arith, er, hy))
          (omega (arith, ec, hx)))
        (rw (er, last) refl))
  | inr above ↦ rw (scroll_buffer_lem a color y x hy hx) (
      rw
        (scroll_buf_lem b rows cols y x (omega (arith, er)) (omega (arith, er, hy))
          (omega (arith, ec, hx)))
        (rw (er, above) (e (suc y) x (ground arith) hx)))
]

roll-Shows :
    {k : Console} {v : Vga} (enabled : Bool)
    → k.cy ≤ k.rows
    → Shows k v
    → Shows (Fbcon.roll enabled k) (Vga.roll v)
unfolding Fbcon.roll Vga.roll Fbcon.scroll
roll-Shows {k} {v} enabled h s =
    let k1 = record k { buf = Fbcon.scroll_buf k.buf k.rows k.cols; cy = k.cy - 1 } in
    let v1 = record v { buffer = scroll_buffer v.buffer v.color; row = vga_height - 1 } in
    let s1 : k.cy ≡ k.rows → Shows k1 v1 = λ e. record {
      cols_eq = s.cols_eq;
      rows_eq = s.rows_eq;
      cx_eq = s.cx_eq;
      cy_eq = omega (arith, e, s.rows_eq);
      cells = λ y x hy hx.
          cell_scrolled k.buf v.buffer k.rows k.cols v.color y x s.rows_eq s.cols_eq hy hx s.cells;
    } in
    let redrawn : k.cy ≡ k.rows → Shows (Fbcon.redraw enabled k1) v1 =
      λ e. Shows-SameText (redraw-SameText enabled k1) (s1 e) in
    ground (arith, s, s1, redrawn)

-- `vga_putchar` and `fbcon_putchar` at 80 by 25 do the same to the text and to the cursor.
pub putchar-Shows :
    {k : Console} {v : Vga} (enabled : Bool) (now c : ℕ)
    → Fbcon.Bounds.IsValid k
    → Shows k v
    → Shows (Fbcon.putchar enabled now k c) (Vga.putchar v c)
unfolding Fbcon.putchar Vga.putchar Vga.update_cursor
putchar-Shows {k} {v} enabled now c h s =
    let h0 = Fbcon.Bounds.cursor_hide-IsValid enabled h in
    let s0 = Shows-SameText (cursor_hide-SameText enabled k) s in
    let k1 = Fbcon.wrap (Fbcon.place (Fbcon.cursor_hide enabled k) c) in
    let v1 = Vga.roll (Vga.wrap (Vga.place v c)) in
    let in_row = (Fbcon.Bounds.wrap-IsWrapped (Fbcon.Bounds.place-IsPlaced c h0)).row_in in
    let s1 : Shows (Fbcon.roll enabled k1) v1 =
      roll-Shows enabled in_row (wrap-Shows (place-Shows c h0 s0)) in
    let k2 = record (Fbcon.roll enabled k1) { cursor_blink = true; cursor_last_toggle = now } in
    let s2 : Shows k2 (Vga.update_cursor v1) = record {
      cols_eq = s1.cols_eq;
      rows_eq = s1.rows_eq;
      cx_eq = s1.cx_eq;
      cy_eq = s1.cy_eq;
      cells = s1.cells;
    } in
    let s3 = Shows-SameText (cursor_show-SameText enabled k2) s2 in
    let ready : (k.cols == 0 || k.rows == 0) ≡ false = ground (arith, h.cx_in, h.cy_in) in
    rw ready s3

-- `fbcon_putchar` on each character of a string, at one time of the clock.
abbrev pub put_string : (enabled : Bool) (now : ℕ) → Console → List ℕ → Console
put_string enabled now k [] = k
put_string enabled now k (c ∷ cs) = put_string enabled now (Fbcon.putchar enabled now k c) cs

-- `vga_write` shows what printing the same string through `fbcon_putchar` shows, on a valid
-- console of 80 by 25 that the VGA shows before.
pub write-Shows :
    {k : Console} {v : Vga} (enabled : Bool) (now : ℕ) (cs : List ℕ)
    → Fbcon.Bounds.IsValid k
    → Shows k v
    → Shows (put_string enabled now k cs) (Vga.write v cs)
unfolding Vga.write
write-Shows enabled now [] h s = s
write-Shows {k = k} {v = v} enabled now (c ∷ cs) h s =
    write-Shows {k = Fbcon.putchar enabled now k c} {v = Vga.putchar v c} enabled now cs
      (Fbcon.Bounds.putchar-IsValid enabled now c h) (putchar-Shows enabled now c h s)
