-- ===== src/Ps2/Tests.antt =====
-- Runs of the keyboard driver.
use neodymium.Base.{◌≡◌, refl, arith, false, if◌then◌else◌, ltb, length, some, [], ◌∷◌, ◌++◌}
use neodymium.Ps2.{Keyboard, buf_put, poll, poll_read, poll_commit, keyboard_handler}
use neodymium.Ps2.Queue.{IsValid, contents, buf_put-contents, poll-interrupted}

-- One value is pending, in the last cell.
abbrev one_key : Keyboard
one_key = record {
  keybuf = λ i. b'a';
  keybuf_head = 0;
  keybuf_tail = 127;
  extended = false;
  shift_pressed = false;
  ctrl_pressed = false;
  alt_pressed = false;
  caps_pressed = false;
}

one_key-IsValid : IsValid one_key
one_key-IsValid = record { head_in = omega arith; tail_in = omega arith }

buf_put-contents_example : contents (buf_put one_key b'b') ≡ (
    if ltb (length (contents one_key)) 127
    then contents one_key ++ (b'b' ∷ [])
    else contents one_key)
buf_put-contents_example = buf_put-contents b'b' one_key-IsValid

poll-interrupted_example :
    poll (keyboard_handler one_key 0x1E)
    ≡ (some b'a', poll_commit 127 (keyboard_handler one_key 0x1E))
unfolding poll_read
poll-interrupted_example = poll-interrupted 0x1E 127 b'a' one_key-IsValid refl
