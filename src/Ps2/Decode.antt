-- ===== src/Ps2/Decode.antt =====
-- What the decoder makes of scan codes: letters under the modifiers, and the release of keys.
use neodymium.Base.{
  ℕ, ◌-◌, ◌≤◌, ◌<◌, ◌≡◌, refl, Bool, true, false, not, ◌&&◌, ◌||◌, bit_and, arith, ltb, leb, ◌==◌,
  ==_iff, if◌then◌else◌, get_or,
}
use neodymium.Base.Bits.{holds_below, holds_below-at}
use neodymium.Ps2.{
  Keyboard, key_char, ctrl_char, caps_char, is_letter, handle_extended, handle_plain,
  keyboard_handler,
}
use neodymium.Ps2.Keymap.{keymap_lower}

-- The key's letter without modifiers.
abbrev pub is_small_letter : ℕ → Bool
is_small_letter sc = leb b'a' (get_or keymap_lower sc 0) && leb (get_or keymap_lower sc 0) b'z'

-- What a letter key gives: control makes it 1 to 26, otherwise it is a capital if one of shift and
-- caps lock is on, and not both.
abbrev pub letter : (shift ctrl caps : Bool) → ℕ → ℕ
letter shift ctrl caps sc =
    let c = get_or keymap_lower sc 0 in
    if ctrl then c - 96 else if (shift && not caps) || (not shift && caps) then c - 32 else c

abbrev row : (shift ctrl caps : Bool) → ℕ → Bool
row shift ctrl caps sc =
    if is_small_letter sc then key_char shift ctrl caps sc == letter shift ctrl caps sc else true

table : (shift ctrl caps : Bool) (sc : ℕ) → sc < 89 → row shift ctrl caps sc ≡ true
unfolding key_char ctrl_char caps_char is_letter holds_below
table true true true sc h = holds_below-at 89 (row true true true) sc refl h
table true true false sc h = holds_below-at 89 (row true true false) sc refl h
table true false true sc h = holds_below-at 89 (row true false true) sc refl h
table true false false sc h = holds_below-at 89 (row true false false) sc refl h
table false true true sc h = holds_below-at 89 (row false true true) sc refl h
table false true false sc h = holds_below-at 89 (row false true false) sc refl h
table false false true sc h = holds_below-at 89 (row false false true) sc refl h
table false false false sc h = holds_below-at 89 (row false false false) sc refl h

read_row : (b c : Bool) → b ≡ true → (if b then c else true) ≡ true → c ≡ true
read_row true c e h = h
read_row false c e h = ground (arith, e)

-- Every key with a letter on it gives this letter, whatever modifiers are pressed.
pub key_char-letter :
    (shift ctrl caps : Bool) (sc : ℕ)
    → sc < 89
    → is_small_letter sc ≡ true
    → key_char shift ctrl caps sc ≡ letter shift ctrl caps sc
key_char-letter shift ctrl caps sc h small =
    (==_iff _ _).0 (read_row (is_small_letter sc) _ small (table shift ctrl caps sc h))

high_bit : (sc : ℕ) → 128 ≤ sc → sc < 256 → (bit_and sc 0x80 == 0) ≡ false
unfolding holds_below
high_bit sc h1 h2 = ground (
  arith,
  holds_below-at 256 (λ c. if ltb c 128 then true else not (bit_and c 0x80 == 0)) sc refl h2,
)

-- The release of a key, a code from 128 on, puts nothing into the buffer.
pub keyboard_handler-release :
    (k : Keyboard) (sc : ℕ)
    → 128 ≤ sc
    → sc < 256
    → let k1 = keyboard_handler k sc in
      (k1.keybuf ≡ k.keybuf) × (k1.keybuf_head ≡ k.keybuf_head) × (k1.keybuf_tail ≡ k.keybuf_tail)
unfolding keyboard_handler handle_extended handle_plain
keyboard_handler-release k sc h1 h2 = ground (arith, high_bit sc h1 h2)
