-- ===== src/Vga.antt =====
-- The text console of the VGA, src/drivers/vga.c and its header: 80 by 25 cells of 16 bits in video
-- memory, which `buffer` gives by index. `vga_update_cursor` sends the position to the hardware; the
-- model keeps the two bytes it writes last in `cursor_port`.
pub mod Text
pub mod Agree
mod Tests
use neodymium.Base.{
  ℕ, suc, ◌+◌, ◌-◌, ◌*◌, ◌/◌, ◌%◌, ◌^◌, bit_or, List, [], ◌∷◌, leb, ltb, ◌==◌, if◌then◌else◌,
  update, for_below, ◌>>>◌, ◌<<<◌, u16,
}

abbrev pub vga_width : ℕ
vga_width = 80

abbrev pub vga_height : ℕ
vga_height = 25

abbrev pub vga_entry_color : ℕ → ℕ → ℕ
vga_entry_color fg bg = bit_or fg (bg <<< 4) % 2 ^ 8

abbrev pub vga_entry : ℕ → ℕ → ℕ
vga_entry uc color = u16 (bit_or uc (color <<< 8))

pub record Vga : Type 0 where
  pub buffer : ℕ → ℕ
  pub row : ℕ
  pub column : ℕ
  pub color : ℕ
  pub cursor_port : ℕ × ℕ

pub update_cursor : Vga → Vga
update_cursor v =
    let pos = u16 (v.row * vga_width + v.column) in
    record v { cursor_port = (pos >>> 8, pos % 2 ^ 8) }

-- `vga_init`; `old` is the memory before it, and its `cursor_port` stays.
pub init : Vga → Vga
init old =
    let color = vga_entry_color 7 0 in
    record old {
      row = 0;
      column = 0;
      color = color;
      buffer =
          for_below vga_height
            (λ y b.
              for_below vga_width (λ x a. update a (y * vga_width + x) (vga_entry b' ' color)) b)
            old.buffer;
    }

pub setcolor : Vga → ℕ → Vga
setcolor v color = record v { color = color }

pub write_cell : Vga → ℕ → Vga
write_cell v c = record v {
  buffer = update v.buffer (v.row * vga_width + v.column) (vga_entry c v.color);
}

pub step_left : Vga → Vga
step_left v =
    if ltb 0 v.column
    then record v { column = v.column - 1 }
    else if ltb 0 v.row
    then record v { row = v.row - 1; column = vga_width - 1 }
    else v

pub place : Vga → ℕ → Vga
place v c =
    if c == b'\n'
    then record v { column = 0; row = v.row + 1 }
    else if c == b'\r'
    then record v { column = 0 }
    else if c == 8
    then write_cell (step_left v) b' '
    else if c == b'\t'
    then record v { column = (v.column + 4) / 4 * 4 }
    else (let v1 = write_cell v c in record v1 { column = v1.column + 1 })

pub wrap : Vga → Vga
wrap v = if leb vga_width v.column then record v { column = 0; row = v.row + 1 } else v

pub scroll_buffer : (ℕ → ℕ) → (color : ℕ) → ℕ → ℕ
scroll_buffer b color =
    for_below vga_width (λ x a. update a ((vga_height - 1) * vga_width + x) (vga_entry b' ' color))
      (for_below (vga_height - 1)
        (λ y a.
          for_below vga_width (λ x c. update c (y * vga_width + x) (c ((y + 1) * vga_width + x))) a)
        b)

pub roll : Vga → Vga
roll v =
    if leb vga_height v.row
    then record v { buffer = scroll_buffer v.buffer v.color; row = vga_height - 1 }
    else v

pub putchar : Vga → ℕ → Vga
putchar v c = update_cursor (roll (wrap (place v c)))

pub cursor_up : Vga → Vga
cursor_up v = update_cursor (if ltb 0 v.row then record v { row = v.row - 1 } else v)

pub cursor_down : Vga → Vga
cursor_down v =
    update_cursor (if ltb v.row (vga_height - 1) then record v { row = v.row + 1 } else v)

pub cursor_left : Vga → Vga
cursor_left v = update_cursor (step_left v)

pub step_right : Vga → Vga
step_right v =
    if ltb v.column (vga_width - 1)
    then record v { column = v.column + 1 }
    else if ltb v.row (vga_height - 1)
    then record v { row = v.row + 1; column = 0 }
    else v

pub cursor_right : Vga → Vga
cursor_right v = update_cursor (step_right v)

pub write : Vga → List ℕ → Vga
write v [] = v
write v (c ∷ cs) = write (putchar v c) cs
