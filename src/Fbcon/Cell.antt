-- ===== src/Fbcon/Cell.antt =====
-- A printed character stands in the cell that the cursor was in.
use neodymium.Base.{
  ℕ, ◌+◌, ◌<◌, ◌≤◌, ◌≡◌, ◌⊎◌, inl, inr, refl, sym, ◌∙◌, ap, Bool, true, false, not, ◌||◌, arith,
  leb, ◌==◌, Bool-cases, if_keeps, else_keeps,
}
use neodymium.Fbcon.{
  Console, cursor_show, cursor_hide, draw_cell, write_cell, place, wrap, roll, putchar, tick,
}
use neodymium.Fbcon.Bounds.{IsValid, cursor_hide-IsValid}

cursor_hide_buf :
    (e : Bool) (k : Console)
    → ((cursor_hide e k).buf ≡ k.buf)
      × ((cursor_hide e k).cx ≡ k.cx)
      × ((cursor_hide e k).cy ≡ k.cy)
      × ((cursor_hide e k).cols ≡ k.cols)
      × ((cursor_hide e k).rows ≡ k.rows)
unfolding cursor_hide draw_cell
cursor_hide_buf e k =
    let P : Console → Type 0 = λ j.
      (j.buf ≡ k.buf) × (j.cx ≡ k.cx) × (j.cy ≡ k.cy) × (j.cols ≡ k.cols) × (j.rows ≡ k.rows) in
    if_keeps P (not k.visible || not e) (refl, refl, refl, refl, refl)
      (if_keeps P k.cursor_shown (refl, refl, refl, refl, refl) (refl, refl, refl, refl, refl))

cursor_show_buf : (e : Bool) (k : Console) → (cursor_show e k).buf ≡ k.buf
unfolding cursor_show
cursor_show_buf e k = if_keeps {A = Console} (λ j. j.buf ≡ k.buf) (not k.visible || not e) refl refl

pub tick_buf : (e : Bool) (now : ℕ) (k : Console) → (tick e now k).buf ≡ k.buf
unfolding tick
tick_buf e now k =
    let k1 : Console = record k { cursor_last_toggle = now; cursor_blink = not k.cursor_blink } in
    if_keeps {A = Console} (λ j. j.buf ≡ k.buf) (not k.visible) (cursor_hide_buf e k).0
      (if_keeps {A = Console} (λ j. j.buf ≡ k.buf) _
        (if_keeps {A = Console} (λ j. j.buf ≡ k.buf) (not k.cursor_blink) (cursor_show_buf e k1)
          (cursor_hide_buf e k1).0)
        refl)

-- A printed character in the cell, the cursor behind it.
record Wrote (k j : Console) (c : ℕ) : Type 0 where
  cell : j.buf k.cy k.cx ≡ c
  cx_next : j.cx ≡ k.cx + 1
  cy_same : j.cy ≡ k.cy
  cols_same : j.cols ≡ k.cols
  rows_same : j.rows ≡ k.rows

write_cell-Wrote :
    (k : Console) (c : ℕ) → Wrote k (record (write_cell k c) { cx = (write_cell k c).cx + 1 }) c
unfolding write_cell draw_cell
write_cell-Wrote k c =
    if_keeps (λ j. Wrote k (record j { cx = j.cx + 1 }) c) k.visible
      record {
        cell = ground arith;
        cx_next = refl;
        cy_same = refl;
        cols_same = refl;
        rows_same = refl;
      }
      record {
        cell = ground arith;
        cx_next = refl;
        cy_same = refl;
        cols_same = refl;
        rows_same = refl;
      }

place-Wrote : (k : Console) (c : ℕ) → 32 ≤ c → Wrote k (place k c) c
unfolding place
place-Wrote k c h =
    let P : Console → Type 0 = λ j. Wrote k j c in
    else_keeps P (c == 10) _ (ground arith) (
      else_keeps P (c == 13) _ (ground arith) (
        else_keeps P (c == 8) _ (ground arith)
          (else_keeps P (c == 9) _ (ground arith) (write_cell-Wrote k c))))

-- The character does not scroll the grid, if the cursor is not in the last cell.
wrap_row :
    (k j : Console) (c : ℕ)
    → Wrote k j c
    → IsValid k
    → (k.cx + 1 < k.cols) ⊎ (k.cy + 1 < k.rows)
    → ((wrap j).buf ≡ j.buf) × (leb (wrap j).rows (wrap j).cy ≡ false)
unfolding wrap
wrap_row k j c w h room = elim (Bool-cases (leb j.cols j.cx)) [
  | inl over ↦
      rw over
        (refl, ground (arith, w.cx_next, w.cy_same, w.cols_same, w.rows_same, h.cx_in, h.cy_in))
  | inr fits ↦ rw fits (refl, ground (arith, w.cy_same, w.rows_same, h.cy_in))
]

roll_same : (e : Bool) (k : Console) → leb k.rows k.cy ≡ false → roll e k ≡ k
unfolding roll
roll_same e k h = rw h refl

-- A printed character stands in the cell of the cursor, unless the grid scrolls.
pub putchar_cell :
    (e : Bool) (now : ℕ) (k : Console) (c : ℕ)
    → IsValid k
    → 32 ≤ c
    → (k.cx + 1 < k.cols) ⊎ (k.cy + 1 < k.rows)
    → (putchar e now k c).buf k.cy k.cx ≡ c
unfolding putchar
putchar_cell e now k c h printable room =
    let j0 = cursor_hide e k in
    let (_, same_x, same_y, same_cols, same_rows) = cursor_hide_buf e k in
    let w = place-Wrote j0 c printable in
    let room0 : (j0.cx + 1 < j0.cols) ⊎ (j0.cy + 1 < j0.rows) =
      rw (same_x, same_y, same_cols, same_rows) room in
    let (kept, stays) = wrap_row j0 (place j0 c) c w (cursor_hide-IsValid e h) room0 in
    let k1 = roll e (wrap (place j0 c)) in
    let cell : k1.buf k.cy k.cx ≡ c =
      ap (λ j. j.buf k.cy k.cx) (roll_same e (wrap (place j0 c)) stays)
      ∙ ap (λ b. b k.cy k.cx) kept
      ∙ ap (λ y. (place j0 c).buf y k.cx) (sym same_y)
      ∙ ap (λ x. (place j0 c).buf j0.cy x) (sym same_x)
      ∙ w.cell in
    else_keeps {A = Console} (λ j. j.buf k.cy k.cx ≡ c) (k.cols == 0 || k.rows == 0) k
      (ground (arith, h.sized))
      (ap (λ b. b k.cy k.cx)
          (cursor_show_buf e (record k1 { cursor_blink = true; cursor_last_toggle = now }))
        ∙ cell)
