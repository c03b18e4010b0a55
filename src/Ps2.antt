-- ===== src/Ps2.antt =====
-- The PS/2 keyboard, src/drivers/ps2.c: the interrupt handler decodes scan codes into key values,
-- and a ring buffer of 128 cells hands them to `ps2_poll` and `ps2_getchar`. A scan code is the byte
-- that `inb` delivers. Setup has `ps2_init`, over the ports.
pub mod Keymap
pub mod Decode
pub mod Queue
mod Setup
mod Tests
use neodymium.Base.{
  ℕ, ◌+◌, ◌-◌, ◌%◌, bit_and, bit_xor, Bool, true, false, not, ◌&&◌, ◌||◌, Option, none, some, ltb,
  leb, ◌==◌, if◌then◌else◌, update, get_or,
}
use Keymap.{keymap_lower, keymap_upper}

abbrev pub keybuf_size : ℕ
keybuf_size = 128

abbrev pub key_up : ℕ
key_up = 256

abbrev pub key_down : ℕ
key_down = 257

abbrev pub key_left : ℕ
key_left = 258

abbrev pub key_right : ℕ
key_right = 259

abbrev pub key_f1 : ℕ
key_f1 = 266

abbrev pub key_f11 : ℕ
key_f11 = 276

abbrev pub key_f12 : ℕ
key_f12 = 277

pub record Keyboard : Type 0 where
  pub keybuf : ℕ → ℕ
  pub keybuf_head : ℕ
  pub keybuf_tail : ℕ
  pub extended : Bool
  pub shift_pressed : Bool
  pub ctrl_pressed : Bool
  pub alt_pressed : Bool
  pub caps_pressed : Bool

pub buf_put : Keyboard → ℕ → Keyboard
buf_put k val =
    let next = (k.keybuf_head + 1) % keybuf_size in
    if next == k.keybuf_tail
    then k
    else record k { keybuf = update k.keybuf k.keybuf_head val; keybuf_head = next }

-- The switch on a code behind 0xE0: the arrows and the block of six, 0 for any other.
pub extended_key : ℕ → ℕ
extended_key sc =
    if sc == 0x48
    then 256
    else if sc == 0x50
    then 257
    else if sc == 0x4B
    then 258
    else if sc == 0x4D
    then 259
    else if sc == 0x47
    then 260
    else if sc == 0x4F
    then 261
    else if sc == 0x49
    then 262
    else if sc == 0x51
    then 263
    else if sc == 0x52
    then 264
    else if sc == 0x53
    then 265
    else 0

-- The part of the handler behind `extended`.
pub handle_extended : Keyboard → ℕ → Keyboard
handle_extended k sc =
    let k1 = record k { extended = false } in
    if not (bit_and sc 0x80 == 0)
    then k1
    else if extended_key sc == 0
    then k1
    else buf_put k1 (extended_key sc)

-- The character of a plain key under the modifiers: the keymap, then caps lock, then control.
pub is_letter : ℕ → Bool
is_letter c = (leb b'a' c && leb c b'z') || (leb b'A' c && leb c b'Z')

pub caps_char : Bool → ℕ → ℕ
caps_char caps c = if caps && is_letter c then bit_xor c 32 else c

pub ctrl_char : Bool → ℕ → ℕ
ctrl_char ctrl c =
    if ctrl
    then (if leb b'a' c && leb c b'z'
        then c - 96
        else if leb b'A' c && leb c b'Z'
        then c - 64
        else c)
    else c

pub key_char : (shift ctrl caps : Bool) → ℕ → ℕ
unfolding ctrl_char caps_char is_letter
key_char shift ctrl caps sc =
    ctrl_char ctrl (caps_char caps (get_or (if shift then keymap_upper else keymap_lower) sc 0))

-- The part of the handler behind the switch on the modifier keys. `if (!c) return` comes before
-- caps lock and control, which make 0 of no other character.
pub handle_plain : Keyboard → ℕ → Keyboard
handle_plain k sc =
    if not (bit_and sc 0x80 == 0)
    then k
    else if leb 0x3B sc && leb sc 0x44
    then buf_put k (key_f1 + (sc - 0x3B))
    else if sc == 0x57
    then buf_put k key_f11
    else if sc == 0x58
    then buf_put k key_f12
    else if get_or (if k.shift_pressed then keymap_upper else keymap_lower) sc 0 == 0
    then k
    else buf_put k (key_char k.shift_pressed k.ctrl_pressed k.caps_pressed sc)

pub keyboard_handler : Keyboard → ℕ → Keyboard
keyboard_handler k sc =
    if sc == 0xE0
    then record k { extended = true }
    else if k.extended
    then handle_extended k sc
    else if sc == 0x2A || sc == 0x36
    then record k { shift_pressed = true }
    else if sc == 0xAA || sc == 0xB6
    then record k { shift_pressed = false }
    else if sc == 0x1D
    then record k { ctrl_pressed = true }
    else if sc == 0x9D
    then record k { ctrl_pressed = false }
    else if sc == 0x38
    then record k { alt_pressed = true }
    else if sc == 0xB8
    then record k { alt_pressed = false }
    else if sc == 0x3A
    then record k { caps_pressed = not k.caps_pressed }
    else if sc == 0xBA
    then k
    else handle_plain k sc

-- The reads of `ps2_poll`: the tail and the value there, if the buffer is not empty.
pub poll_read : Keyboard → Option (ℕ × ℕ)
poll_read k =
    if k.keybuf_head == k.keybuf_tail then none else some (k.keybuf_tail, k.keybuf k.keybuf_tail)

-- Its write.
pub poll_commit : ℕ → Keyboard → Keyboard
poll_commit tail k = record k { keybuf_tail = (tail + 1) % keybuf_size }

pub finish_poll : Keyboard → Option (ℕ × ℕ) → Option ℕ × Keyboard
finish_poll k none = (none, k)
finish_poll k (some (tail, c)) = (some c, poll_commit tail k)

-- `ps2_poll`; `none` is the result -1. `ps2_getchar` differs only in that it waits while the buffer
-- is empty, so that `none` means that it is still waiting.
pub poll : Keyboard → Option ℕ × Keyboard
poll k = finish_poll k (poll_read k)
