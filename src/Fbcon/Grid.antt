-- ===== src/Fbcon/Grid.antt =====
-- What the console's drawing leaves alone, and what scrolling does to the grid.
use neodymium.Base.{
  ℕ, suc, ◌-◌, ◌≤◌, ◌<◌, ◌≡◌, refl, ◌∙◌, Bool, false, arith, ◌==◌, if◌then◌else◌, for_below,
  for_below-keeps, update2, shift_rows_lem, fill_row_lem,
}
use neodymium.Fbcon.{Console, draw_cell, cursor_show, cursor_hide, scroll_buf, redraw}

-- Two states with the same text, cursor and size.
pub record SameText (k t : Console) : Type 0 where
  pub buf_eq : t.buf ≡ k.buf
  pub cols_eq : t.cols ≡ k.cols
  pub rows_eq : t.rows ≡ k.rows
  pub cx_eq : t.cx ≡ k.cx
  pub cy_eq : t.cy ≡ k.cy
  pub visible_eq : t.visible ≡ k.visible

pub SameText-refl : (k : Console) → SameText k k
SameText-refl k = record {
  buf_eq = refl;
  cols_eq = refl;
  rows_eq = refl;
  cx_eq = refl;
  cy_eq = refl;
  visible_eq = refl;
}

pub draw_cell-SameText : {k t : Console} (x y c : ℕ) → SameText k t → SameText k (draw_cell t x y c)
unfolding draw_cell
draw_cell-SameText x y c h = record {
  buf_eq = h.buf_eq;
  cols_eq = h.cols_eq;
  rows_eq = h.rows_eq;
  cx_eq = h.cx_eq;
  cy_eq = h.cy_eq;
  visible_eq = h.visible_eq;
}

pub cursor_show-SameText : (enabled : Bool) (k : Console) → SameText k (cursor_show enabled k)
unfolding cursor_show
cursor_show-SameText enabled k = ground arith

pub cursor_hide-SameText : (enabled : Bool) (k : Console) → SameText k (cursor_hide enabled k)
unfolding cursor_hide
cursor_hide-SameText enabled k = ground (
  arith,
  draw_cell-SameText k.cursor_x k.cursor_y (k.buf k.cursor_y k.cursor_x) (SameText-refl k),
)

-- Scrolling moves each row of the grid up by one and blanks the last.
pub scroll_buf_lem :
    (b : ℕ → ℕ → ℕ) (rows cols y x : ℕ)
    → 1 ≤ rows
    → y < rows
    → x < cols
    → scroll_buf b rows cols y x ≡ (if suc y == rows then b' ' else b (suc y) x)
unfolding scroll_buf
scroll_buf_lem b rows cols y x h1 h2 h3 = ground (
  arith,
  fill_row_lem
      (for_below (rows - 1) (λ j a. for_below cols (λ i c. update2 c j i (c (suc j) i)) a) b) cols
      (rows - 1) b' ' y x,
  shift_rows_lem b cols (rows - 1) y x,
)

pub SameText-trans : {k t s : Console} → SameText k t → SameText t s → SameText k s
SameText-trans h g = record {
  buf_eq = g.buf_eq ∙ h.buf_eq;
  cols_eq = g.cols_eq ∙ h.cols_eq;
  rows_eq = g.rows_eq ∙ h.rows_eq;
  cx_eq = g.cx_eq ∙ h.cx_eq;
  cy_eq = g.cy_eq ∙ h.cy_eq;
  visible_eq = g.visible_eq ∙ h.visible_eq;
}

pub redraw-SameText : (enabled : Bool) (k : Console) → SameText k (redraw enabled k)
unfolding redraw
redraw-SameText enabled k =
    let k1 = for_below k.rows (λ y s. for_below k.cols (λ x t. draw_cell t x y (k.buf y x)) s) k in
    let same : SameText k k1 =
      for_below-keeps (SameText k) k.rows
        (λ y s. for_below k.cols (λ x t. draw_cell t x y (k.buf y x)) s) k
        (λ y s v.
          for_below-keeps (SameText k) k.cols (λ x t. draw_cell t x y (k.buf y x)) s
            (λ x t w. draw_cell-SameText x y (k.buf y x) w) v)
        (SameText-refl k) in
    let k2 = record k1 { cursor_shown = false } in
    let shown = cursor_show-SameText enabled k2 in
    let off : SameText k k2 = record {
      buf_eq = same.buf_eq;
      cols_eq = same.cols_eq;
      rows_eq = same.rows_eq;
      cx_eq = same.cx_eq;
      cy_eq = same.cy_eq;
      visible_eq = same.visible_eq;
    } in
    ground (arith, SameText-refl k, off, SameText-trans off shown)
