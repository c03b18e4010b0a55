-- ===== src/Vga/Text.antt =====
-- What scrolling does to the video memory, by the cell's row and column.
use neodymium.Base.{
  ℕ, suc, ◌+◌, ◌-◌, ◌*◌, ◌≤◌, ◌<◌, ◌≡◌, ◌∙◌, ◌&&◌, arith, ltb, ◌==◌, if◌then◌else◌, for_below,
  update, zero,
}
use neodymium.Vga.{vga_width, vga_height, vga_entry, scroll_buffer}

row_copied :
    (a : ℕ → ℕ) (n r y x : ℕ)
    → n ≤ vga_width
    → x < vga_width
    → for_below n
        (λ i c. update c (r * vga_width + i) (c ((r + 1) * vga_width + i)))
        a
        (y * vga_width + x)
      ≡ (if (y == r) && ltb x n then a ((r + 1) * vga_width + x) else a (y * vga_width + x))
row_copied a zero r y x hn hx = ground arith
row_copied a (suc n) r y x hn hx = ground (
  arith,
  row_copied a n r y x (omega arith) hx,
  row_copied a n r (r + 1) n (omega arith) (omega arith),
)

shift_step :
    (a : ℕ → ℕ) (m y x l p q : ℕ)
    → x < vga_width
    → l ≡ (if (y == m) && ltb x vga_width then p else q)
    → p ≡ (if ltb (m + 1) m then a ((m + 1 + 1) * vga_width + x) else a ((m + 1) * vga_width + x))
    → q ≡ (if ltb y m then a ((y + 1) * vga_width + x) else a (y * vga_width + x))
    → l ≡ (if ltb y (suc m) then a ((y + 1) * vga_width + x) else a (y * vga_width + x))
shift_step a m y x l p q hx el ep eq = ground arith

rows_shifted :
    (a : ℕ → ℕ) (m y x : ℕ)
    → x < vga_width
    → for_below m
        (λ j b.
          for_below vga_width (λ i c. update c (j * vga_width + i) (c ((j + 1) * vga_width + i))) b)
        a
        (y * vga_width + x)
      ≡ (if ltb y m then a ((y + 1) * vga_width + x) else a (y * vga_width + x))
rows_shifted a zero y x hx = ground arith
rows_shifted a (suc m) y x hx =
    let b =
      for_below m
        (λ j b.
          for_below vga_width (λ i c. update c (j * vga_width + i) (c ((j + 1) * vga_width + i))) b)
        a in
    shift_step a m y x
      (for_below vga_width (λ i c. update c (m * vga_width + i) (c ((m + 1) * vga_width + i))) b
        (y * vga_width + x))
      (b ((m + 1) * vga_width + x)) (b (y * vga_width + x)) hx
      (row_copied b vga_width m y x (omega arith) hx) (rows_shifted a m (m + 1) x hx)
      (rows_shifted a m y x hx)

row_blank :
    (a : ℕ → ℕ) (n r v y x : ℕ)
    → n ≤ vga_width
    → x < vga_width
    → for_below n (λ i c. update c (r * vga_width + i) v) a (y * vga_width + x)
      ≡ (if (y == r) && ltb x n then v else a (y * vga_width + x))
row_blank a zero r v y x hn hx = ground arith
row_blank a (suc n) r v y x hn hx = ground (arith, row_blank a n r v y x (omega arith) hx)

last_step :
    (a : ℕ → ℕ) (y x q v : ℕ)
    → y < vga_height
    → x < vga_width
    → q ≡ (if ltb y (vga_height - 1) then a ((y + 1) * vga_width + x) else a (y * vga_width + x))
    → (if (y == vga_height - 1) && ltb x vga_width then v else q)
      ≡ (if suc y == vga_height then v else a (suc y * vga_width + x))
last_step a y x q v hy hx e = ground arith

-- Scrolling the video memory moves each row up by one and blanks the last.
pub scroll_buffer_lem :
    (a : ℕ → ℕ) (color y x : ℕ)
    → y < vga_height
    → x < vga_width
    → scroll_buffer a color (y * vga_width + x)
      ≡ (if suc y == vga_height then vga_entry b' ' color else a (suc y * vga_width + x))
unfolding scroll_buffer
scroll_buffer_lem a color y x hy hx =
    let b =
      for_below (vga_height - 1)
        (λ j b.
          for_below vga_width (λ i c. update c (j * vga_width + i) (c ((j + 1) * vga_width + i))) b)
        a in
    let last = row_blank b vga_width (vga_height - 1) (vga_entry b' ' color) y x (omega arith) hx in
    let above = rows_shifted a (vga_height - 1) y x hx in
    last ∙ last_step a y x (b (y * vga_width + x)) (vga_entry b' ' color) hy hx above
