-- ===== src/Echo/Chain.antt =====
-- The two chains of tests on a key as instances of one, so that what holds of every key is shown once.
use neodymium.Base.{
  ℕ, ◌+◌, ◌-◌, ◌≡◌, refl, Bool, ◌&&◌, Option, none, some, [], ◌∷◌, leb, ltb, ◌==◌, if◌then◌else◌,
}
use neodymium.Ps2.{key_up, key_down, key_left, key_right, key_f1, key_f12}
use neodymium.Fbcon
use neodymium.Printf.{word}
use neodymium.Echo.{Terminal, on_console, printf, toggle_clear, toggle, kernel_key, yield_key}

-- `act` is what F12 does with control and shift, where `shows` is true.
unfoldable pub key_action :
    (now : ℕ) (shows : Bool) (act : Terminal → Terminal) (c : ℕ) → Terminal → Option Terminal
key_action now shows act c t =
    let k = t.keyboard in
    let e = t.screen.enabled in
    if c == 8
    then printf now (8 ∷ b' ' ∷ 8 ∷ []) [] t
    else if c == key_f12 && (k.ctrl_pressed && (k.shift_pressed && k.alt_pressed))
    then none
    else if c == key_f12 && (k.ctrl_pressed && (k.shift_pressed && shows))
    then some (act t)
    else if leb key_f1 c && leb c key_f12
    then printf now (b'[' ∷ b'F' ∷ b'%' ∷ b'd' ∷ b']' ∷ []) (word (c - key_f1 + 1) ∷ []) t
    else if c == key_up
    then some (on_console (Fbcon.cursor_up e) t)
    else if c == key_down
    then some (on_console (Fbcon.cursor_down e) t)
    else if c == key_left
    then some (on_console (Fbcon.cursor_left e) t)
    else if c == key_right
    then some (on_console (Fbcon.cursor_right e) t)
    else if ltb c 256
    then printf now (b'%' ∷ b'c' ∷ []) (word c ∷ []) t
    else some t

pub kernel_key-key_action :
    (now : ℕ) (fb_ok : Bool) (c : ℕ) (t : Terminal)
    → kernel_key now fb_ok c t ≡ key_action now fb_ok (toggle_clear now) c t
unfolding kernel_key key_action
kernel_key-key_action now fb_ok c t = refl

pub yield_key-key_action :
    (now c : ℕ) (t : Terminal)
    → yield_key now c t ≡ key_action now t.screen.enabled (toggle now) c t
unfolding yield_key key_action
yield_key-key_action now c t = refl
