-- ===== src/Fbcon/Reach.antt =====
-- The states that the console reaches, by any sequence of calls.
use neodymium.Base.{ℕ, Bool, ◌<◌, arith}
use neodymium.Fbcon.{
  Console, max_cols, max_rows, init, putchar, resize, redraw, set_visible, tick, cursor_up,
  cursor_down, cursor_left, cursor_right,
}
use neodymium.Fbcon.Bounds.{
  IsValid, init-IsValid, putchar-IsValid, resize-IsValid, redraw-IsValid, tick-IsValid,
  cursor_keys-IsValid,
}

-- A call, with what it reads of other modules.
pub data Call : Type 0 where
  put : (enabled : Bool) (now c : ℕ) → Call
  size : (fw fh : ℕ) → Call
  draw : (enabled : Bool) → Call
  show : (now : ℕ) (v : Bool) → Call
  up : (enabled : Bool) → Call
  down : (enabled : Bool) → Call
  left : (enabled : Bool) → Call
  right : (enabled : Bool) → Call
  clock : (enabled : Bool) (now : ℕ) → Call

abbrev pub run : Call → Console → Console
run (put enabled now c) k = putchar enabled now k c
run (size fw fh) k = resize fw fh k
run (draw enabled) k = redraw enabled k
run (show now v) k = set_visible now v k
run (up enabled) k = cursor_up enabled k
run (down enabled) k = cursor_down enabled k
run (left enabled) k = cursor_left enabled k
run (right enabled) k = cursor_right enabled k
run (clock enabled now) k = tick enabled now k

pub data Reach (k : Console) : Console → Type 0 where
  here : Reach k k
  next : {j : Console} (call : Call) → Reach k j → Reach k (run call j)

pub set_visible-IsValid :
    {k : Console} (now : ℕ) (v : Bool) → IsValid k → IsValid (set_visible now v k)
unfolding set_visible
set_visible-IsValid {k} now v h = ground (arith, h, h.sized)

run-IsValid : (call : Call) {k : Console} → IsValid k → IsValid (run call k)
run-IsValid (put enabled now c) h = putchar-IsValid enabled now c h
run-IsValid (size fw fh) h = resize-IsValid fw fh h
run-IsValid (draw enabled) h = redraw-IsValid enabled h
run-IsValid (show now v) h = set_visible-IsValid now v h
run-IsValid (up enabled) h = (cursor_keys-IsValid enabled h).0
run-IsValid (down enabled) h = (cursor_keys-IsValid enabled h).1
run-IsValid (left enabled) h = (cursor_keys-IsValid enabled h).2
run-IsValid (right enabled) h = (cursor_keys-IsValid enabled h).3
run-IsValid (clock enabled now) h = tick-IsValid enabled now h

Reach-keeps : {k k' : Console} → IsValid k → Reach k k' → IsValid k'
Reach-keeps h here = h
Reach-keeps h (next call r) = run-IsValid call (Reach-keeps h r)

-- From `fbcon_init` on, any sequence of calls of the console, with any characters, sizes and times,
-- keeps a grid of 1 to 200 columns and rows with the cursor in it and the drawn cursor in the buffer.
pub Reach-IsValid :
    (old k : Console)
    → old.cursor_x < max_cols
    → old.cursor_y < max_rows
    → Reach (init old) k
    → IsValid k
Reach-IsValid old k hx hy r = Reach-keeps (init-IsValid old hx hy) r
