-- ===== src/Fbcon/Tests.antt =====
-- Runs of the framebuffer console on concrete states.
use neodymium.Base.{true, [], arith}
use neodymium.Fbcon.{Console, init, putchar, resize, tick}
use neodymium.Fbcon.Bounds.{IsValid}
use neodymium.Fbcon.Reach.{here, next, put, size, clock, Reach-IsValid}

-- A visible console with the cursor in the last cell.
abbrev pub last_cell : Console
last_cell = record {
  buf = λ y x. b' ';
  cols = 80;
  rows = 25;
  cx = 79;
  cy = 24;
  visible = true;
  cursor_shown = true;
  cursor_blink = true;
  cursor_last_toggle = 0;
  cursor_x = 79;
  cursor_y = 24;
  drawn = [];
}

pub last_cell-IsValid : IsValid last_cell
last_cell-IsValid = record {
  sized = record {
    cols_pos = omega arith;
    cols_max = omega arith;
    rows_pos = omega arith;
    rows_max = omega arith;
    cursor_x_in = omega arith;
    cursor_y_in = omega arith;
  };
  cx_in = omega arith;
  cy_in = omega arith;
}

Reach-IsValid_example :
    IsValid (tick true 125 (putchar true 5 (resize 300 95 (init last_cell)) b'a'))
Reach-IsValid_example =
    Reach-IsValid last_cell (tick true 125 (putchar true 5 (resize 300 95 (init last_cell)) b'a'))
      (omega arith) (omega arith)
      (next (clock true 125) (next (put true 5 b'a') (next (size 300 95) here)))
