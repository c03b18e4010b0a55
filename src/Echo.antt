-- ===== src/Echo.antt =====
-- The terminal: what a key does in the main loop of src/kernel/kernel.c and in the loop of `yield` in
-- src/kernel/sched.c, over the keyboard, the console, the framebuffer and the serial port. The
-- console's drawing calls are carried out on the screen behind each of its operations.
pub mod Agree
pub mod Chain
pub mod Keeps
pub mod Round
pub mod Typed
pub mod Tests
use neodymium.Base.{
  ℕ, ◌+◌, ◌-◌, ◌*◌, Bool, true, false, not, ◌&&◌, Option, none, some, List, [], ◌∷◌, ◌++◌, leb, ltb,
  ◌==◌, if◌then◌else◌,
}
use neodymium.Ps2
use neodymium.Ps2.{Keyboard, key_up, key_down, key_left, key_right, key_f1, key_f12}
use neodymium.Framebuffer
use neodymium.Framebuffer.{Screen, rgb}
use neodymium.Fbcon
use neodymium.Fbcon.{Console, Draw}
use neodymium.Printf.{Arg, word, vprintf}

pub record Terminal : Type 0 where
  pub keyboard : Keyboard
  pub console : Console
  pub screen : Screen
  pub serial : List ℕ

-- The colours of the console.
abbrev pub fg : ℕ
fg = rgb 200 200 200

abbrev pub bg : ℕ
bg = rgb 0 0 0

-- A drawing call of the console, and all of them, the oldest first.
pub paint : Draw → Screen → Screen
paint (Draw.fillrect x y w h) s = Framebuffer.fillrect s x y w h fg
paint (Draw.drawchar x y c) s = Framebuffer.drawchar s x y c fg bg

pub paint_all : List Draw → Screen → Screen
paint_all [] s = s
paint_all (d ∷ ds) s = paint d (paint_all ds s)

-- An operation of the console, with its drawing.
unfoldable pub on_console : (Console → Console) → Terminal → Terminal
on_console f t =
    let k = f (record t.console { drawn = [] }) in
    record t { console = record k { drawn = [] }; screen = paint_all k.drawn t.screen }

-- `putchar` of src/kernel/printf.c.
unfoldable pub putchar : (now : ℕ) → ℕ → Terminal → Terminal
putchar now c t =
    let t1 = record t { serial = t.serial ++ (c ∷ []) } in
    on_console (λ k. Fbcon.putchar t.screen.enabled now k c) t1

unfoldable pub put_all : (now : ℕ) → List ℕ → Terminal → Terminal
put_all now [] t = t
put_all now (c ∷ cs) t = put_all now cs (putchar now c t)

-- A call of `printf`; `none` is a run that C leaves undefined.
unfoldable pub printf : (now : ℕ) → List ℕ → List Arg → Terminal → Option Terminal
printf now fmt args t = elim (vprintf fmt args) [
  | none ↦ none
  | some out ↦ some (put_all now out t)
]

-- `fb_clear` of the whole screen.
pub clear_screen : Terminal → Terminal
clear_screen t = record t { screen = Framebuffer.clear t.screen bg }

pub set_visible : (now : ℕ) → Bool → Terminal → Terminal
set_visible now v t = on_console (Fbcon.set_visible now v) t

pub redraw : Terminal → Terminal
redraw t = on_console (Fbcon.redraw t.screen.enabled) t

-- What the main loop does where the console is to be hidden or shown.
pub toggle_clear : (now : ℕ) → Terminal → Terminal
toggle_clear now t =
    let t1 = clear_screen (set_visible now (not t.console.visible) t) in
    if t1.console.visible then redraw t1 else t1

-- The same in the loop of `yield`.
pub toggle : (now : ℕ) → Terminal → Terminal
toggle now t =
    if t.console.visible
    then set_visible now false t
    else redraw (clear_screen (set_visible now true t))

-- The chain of tests on the key in the main loop, where `fb_ok` is whether `fb_init` found a
-- framebuffer; `none` is the panic that F12 makes with control, shift and alt.
pub kernel_key : (now : ℕ) (fb_ok : Bool) (c : ℕ) → Terminal → Option Terminal
kernel_key now fb_ok c t =
    let k = t.keyboard in
    let e = t.screen.enabled in
    if c == 8
    then printf now (8 ∷ b' ' ∷ 8 ∷ []) [] t
    else if c == key_f12 && (k.ctrl_pressed && (k.shift_pressed && k.alt_pressed))
    then none
    else if c == key_f12 && (k.ctrl_pressed && (k.shift_pressed && fb_ok))
    then some (toggle_clear now t)
    else if leb key_f1 c && leb c key_f12
    then printf now (b'[' ∷ b'F' ∷ b'%' ∷ b'd' ∷ b']' ∷ []) (word (c - key_f1 + 1) ∷ []) t
    else if c == key_up
    then some (on_console (Fbcon.cursor_up e) t)
    else if c == key_down
    then some (on_console (Fbcon.cursor_down e) t)
    else if c == key_left
    then some (on_console (Fbcon.cursor_left e) t)
    else if c == key_right
    then some (on_console (Fbcon.cursor_right e) t)
    else if ltb c 256
    then printf now (b'%' ∷ b'c' ∷ []) (word c ∷ []) t
    else some t

-- The chain in the loop of `yield`.
pub yield_key : (now : ℕ) (c : ℕ) → Terminal → Option Terminal
yield_key now c t =
    let k = t.keyboard in
    let e = t.screen.enabled in
    if c == 8
    then printf now (8 ∷ b' ' ∷ 8 ∷ []) [] t
    else if c == key_f12 && (k.ctrl_pressed && (k.shift_pressed && k.alt_pressed))
    then none
    else if c == key_f12 && (k.ctrl_pressed && (k.shift_pressed && t.screen.enabled))
    then some (toggle now t)
    else if leb key_f1 c && leb c key_f12
    then printf now (b'[' ∷ b'F' ∷ b'%' ∷ b'd' ∷ b']' ∷ []) (word (c - key_f1 + 1) ∷ []) t
    else if c == key_up
    then some (on_console (Fbcon.cursor_up e) t)
    else if c == key_down
    then some (on_console (Fbcon.cursor_down e) t)
    else if c == key_left
    then some (on_console (Fbcon.cursor_left e) t)
    else if c == key_right
    then some (on_console (Fbcon.cursor_right e) t)
    else if ltb c 256
    then printf now (b'%' ∷ b'c' ∷ []) (word c ∷ []) t
    else some t

pub blink : (now : ℕ) → Terminal → Terminal
blink now t = on_console (Fbcon.tick t.screen.enabled now) t

-- `ps2_poll` with what follows, and the blinking of the cursor, up to the `hlt`.
pub polled : (Option ℕ × Keyboard) → (ℕ → Terminal → Option Terminal) → Terminal → Option Terminal
polled (none, k) act t = some t
polled (some c, k) act t = act c (record t { keyboard = k })

pub then_blink : (now : ℕ) (blinks : Bool) → Option Terminal → Option Terminal
then_blink now blinks none = none
then_blink now blinks (some t) = some (if blinks then blink now t else t)

-- One round of the main loop, and the part of a round of `yield` that runs where no task does.
pub kernel_round : (now : ℕ) (fb_ok : Bool) → Terminal → Option Terminal
kernel_round now fb_ok t =
    then_blink now fb_ok (polled (Ps2.poll t.keyboard) (kernel_key now fb_ok) t)

pub yield_idle : (now : ℕ) → Terminal → Option Terminal
yield_idle now t = then_blink now true (polled (Ps2.poll t.keyboard) (yield_key now) t)
