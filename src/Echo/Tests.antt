-- ===== src/Echo/Tests.antt =====
-- A terminal with one typed key, and the theorems on the loops at it.
use neodymium.Base.{◌≡◌, refl, inl, true, false, some, arith, []}
use neodymium.Echo.{Terminal, kernel_key, yield_key, kernel_round, yield_idle}
use neodymium.Echo.Agree.{kernel_key-yield_key}
use neodymium.Echo.Keeps.{IsSound, Ends}
use neodymium.Echo.Round.{kernel_round-Ends}
use neodymium.Echo.Typed.{Typed, kernel_round-Typed}

-- The key "a" waits in the buffer, control and shift are held, and the console is visible.
abbrev pub terminal : Terminal
terminal = record {
  keyboard = record {
    keybuf = λ i. b'a';
    keybuf_head = 1;
    keybuf_tail = 0;
    extended = false;
    shift_pressed = true;
    ctrl_pressed = true;
    alt_pressed = false;
    caps_pressed = false;
  };
  console = record {
    buf = λ y x. b' ';
    cols = 80;
    rows = 25;
    cx = 3;
    cy = 4;
    visible = true;
    cursor_shown = false;
    cursor_blink = true;
    cursor_last_toggle = 0;
    cursor_x = 0;
    cursor_y = 0;
    drawn = [];
  };
  screen = record {
    memory = λ a. 0;
    ptr = 4096;
    width = 800;
    height = 250;
    pitch = 3200;
    bpp = 32;
    enabled = true;
  };
  serial = [];
}

terminal-IsSound : IsSound terminal
terminal-IsSound = record {
  console = record {
    sized = record {
      cols_pos = omega arith;
      cols_max = omega arith;
      rows_pos = omega arith;
      rows_max = omega arith;
      cursor_x_in = omega arith;
      cursor_y_in = omega arith;
    };
    cx_in = omega arith;
    cy_in = omega arith;
  };
  keyboard = record { head_in = omega arith; tail_in = omega arith };
}

kernel_key-yield_key_example : kernel_key 9 true b'a' terminal ≡ yield_key 9 b'a' terminal
kernel_key-yield_key_example = kernel_key-yield_key 9 b'a' terminal (inl refl)

kernel_round-Ends_example :
    Ends terminal.keyboard (kernel_round 9 true terminal)
    × Ends terminal.keyboard (yield_idle 9 terminal)
kernel_round-Ends_example = kernel_round-Ends 9 true terminal-IsSound

kernel_round-Typed_example :
    ((u : Terminal) × (kernel_round 9 true terminal ≡ some u) × Typed terminal u b'a' [])
    × ((u : Terminal) × (yield_idle 9 terminal ≡ some u) × Typed terminal u b'a' [])
kernel_round-Typed_example =
    kernel_round-Typed 9 b'a' true [] terminal terminal-IsSound refl (omega arith) (omega arith)
      (inl (omega arith))
