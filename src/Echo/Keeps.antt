-- ===== src/Echo/Keeps.antt =====
-- A key leaves the terminal in order, or is the one that panics.
use neodymium.Base.{
  ℕ, ◌+◌, ◌-◌, ◌≡◌, refl, Bool, true, false, not, ◌&&◌, Option, some, none, arith, List, [], ◌∷◌,
  ◌++◌, ltb, leb, ◌==◌, if_keeps, if_split,
}
use neodymium.Ps2.{Keyboard, key_f1, key_f12, key_up, key_down, key_left, key_right}
use neodymium.Ps2.Queue
use neodymium.Ps2.Queue.{poll-contents, poll_modifiers}
use neodymium.Fbcon
use neodymium.Fbcon.{Console}
use neodymium.Fbcon.Bounds
use neodymium.Fbcon.Bounds.{redraw-IsValid, putchar-IsValid, tick-IsValid, cursor_keys-IsValid}
use neodymium.Fbcon.Reach.{set_visible-IsValid}
use neodymium.Printf.{Arg, vprintf}
use neodymium.Echo.Chain.{key_action}
use neodymium.Printf.Texts.{vprintf_erase, vprintf_char, vprintf_function_key}
use neodymium.Echo.{
  Terminal, on_console, putchar, put_all, printf, clear_screen, set_visible, redraw, toggle_clear,
  toggle,
}

-- The cursor is in its grid, and the buffer's indices in theirs.
pub record IsSound (t : Terminal) : Type 0 where
  pub console : Bounds.IsValid t.console
  pub keyboard : Queue.IsValid t.keyboard

pub undrawn : {k : Console} → Bounds.IsValid k → Bounds.IsValid (record k { drawn = [] })
undrawn h = record {
  sized = record {
    cols_pos = h.sized.cols_pos;
    cols_max = h.sized.cols_max;
    rows_pos = h.sized.rows_pos;
    rows_max = h.sized.rows_max;
    cursor_x_in = h.sized.cursor_x_in;
    cursor_y_in = h.sized.cursor_y_in;
  };
  cx_in = h.cx_in;
  cy_in = h.cy_in;
}

pub on_console-IsSound :
    (f : Console → Console) {t : Terminal}
    → ((k : Console) → Bounds.IsValid k → Bounds.IsValid (f k))
    → IsSound t
    → IsSound (on_console f t)
unfolding on_console
on_console-IsSound f keeps s = record {
  console = undrawn (keeps _ (undrawn s.console));
  keyboard = s.keyboard;
}

putchar-IsSound : (now c : ℕ) {t : Terminal} → IsSound t → IsSound (putchar now c t)
unfolding putchar
putchar-IsSound now c {t} s =
    on_console-IsSound (λ k. Fbcon.putchar t.screen.enabled now k c)
      {t = record t { serial = t.serial ++ (c ∷ []) }}
      (λ k h. putchar-IsValid t.screen.enabled now c h)
      record { console = s.console; keyboard = s.keyboard }

put_all-IsSound : (now : ℕ) (cs : List ℕ) (t : Terminal) → IsSound t → IsSound (put_all now cs t)
unfolding put_all
put_all-IsSound now [] t s = s
put_all-IsSound now (c ∷ cs) t s =
    put_all-IsSound now cs (putchar now c t) (putchar-IsSound now c s)

-- A run of `printf` that C defines.
printf-IsSound :
    (now : ℕ) (fmt : List ℕ) (args : List Arg) (out : List ℕ) {t : Terminal}
    → vprintf fmt args ≡ some out
    → IsSound t
    → (u : Terminal) × (printf now fmt args t ≡ some u) × IsSound u
unfolding printf
printf-IsSound now fmt args out {t} e s =
    (put_all now out t, rw (e, printf) refl, put_all-IsSound now out t s)

-- What a key does: the terminal stays in order, or control, shift and alt are held and it panics.
unfoldable pub Ends : (k : Keyboard) → Option Terminal → Type 0
Ends k (some u) = IsSound u
Ends k none = (k.ctrl_pressed ≡ true) × (k.shift_pressed ≡ true) × (k.alt_pressed ≡ true)

printf-Ends :
    (k : Keyboard) (now : ℕ) (fmt : List ℕ) (args : List Arg) (out : List ℕ) {t : Terminal}
    → vprintf fmt args ≡ some out
    → IsSound t
    → Ends k (printf now fmt args t)
unfolding Ends
printf-Ends k now fmt args out e s =
    let (u, eq, sound) = printf-IsSound now fmt args out e s in rw eq sound

set_visible-IsSound :
    (now : ℕ) (v : Bool) {t : Terminal} → IsSound t → IsSound (set_visible now v t)
unfolding set_visible
set_visible-IsSound now v s =
    on_console-IsSound (Fbcon.set_visible now v) (λ k h. set_visible-IsValid now v h) s

redraw-IsSound : {t : Terminal} → IsSound t → IsSound (redraw t)
unfolding redraw
redraw-IsSound {t} s =
    on_console-IsSound (Fbcon.redraw t.screen.enabled) (λ k h. redraw-IsValid t.screen.enabled h) s

clear_screen-IsSound : {t : Terminal} → IsSound t → IsSound (clear_screen t)
unfolding clear_screen
clear_screen-IsSound s = record { console = s.console; keyboard = s.keyboard }

pub toggle_clear-IsSound : (now : ℕ) {t : Terminal} → IsSound t → IsSound (toggle_clear now t)
unfolding toggle_clear
toggle_clear-IsSound now {t} s =
    let cleared = clear_screen-IsSound (set_visible-IsSound now (not t.console.visible) s) in
    if_keeps IsSound _ (redraw-IsSound cleared) cleared

pub toggle-IsSound : (now : ℕ) {t : Terminal} → IsSound t → IsSound (toggle now t)
unfolding toggle
toggle-IsSound now {t} s =
    if_keeps IsSound t.console.visible (set_visible-IsSound now false s)
      (redraw-IsSound (clear_screen-IsSound (set_visible-IsSound now true s)))

-- The keys of the cursor.
cursor-IsSound :
    (f : Console → Console) (t : Terminal)
    → ((k : Console) → Bounds.IsValid k → Bounds.IsValid (f k))
    → IsSound t
    → Ends t.keyboard (some (on_console f t))
unfolding Ends
cursor-IsSound f t keeps s = on_console-IsSound f keeps s

held :
    (k : Keyboard) (b : Bool)
    → (b && (k.ctrl_pressed && (k.shift_pressed && k.alt_pressed))) ≡ true
    → Ends k none
unfolding Ends
held k b e = ground (arith, e)

pub key_action-Ends :
    (now : ℕ) (shows : Bool) (act : Terminal → Terminal) (c : ℕ) {t : Terminal}
    → IsSound t
    → IsSound (act t)
    → Ends t.keyboard (key_action now shows act c t)
unfolding key_action
key_action-Ends now shows act c {t} s a =
    let k = t.keyboard in
    let e = t.screen.enabled in
    let P = Ends k in
    if_keeps P (c == 8) (printf-Ends k now _ [] _ vprintf_erase s) (
      if_split P (c == key_f12 && (k.ctrl_pressed && (k.shift_pressed && k.alt_pressed)))
        (held k (c == key_f12))
        (λ _.
          if_keeps P (c == key_f12 && (k.ctrl_pressed && (k.shift_pressed && shows)))
            (unfold Ends in a)
            (if_split P (leb key_f1 c && leb c key_f12)
              (λ f.
                let (ds, eq) = vprintf_function_key (c - key_f1 + 1) (ground (arith, f)) in
                printf-Ends k now _ _ _ eq s)
              (λ _.
                if_keeps P (c == key_up)
                  (cursor-IsSound (Fbcon.cursor_up e) t (λ j h. (cursor_keys-IsValid e h).0) s)
                  (if_keeps P (c == key_down)
                    (cursor-IsSound (Fbcon.cursor_down e) t (λ j h. (cursor_keys-IsValid e h).1) s)
                    (if_keeps P (c == key_left)
                      (cursor-IsSound (Fbcon.cursor_left e) t (λ j h. (cursor_keys-IsValid e h).2)
                        s)
                      (if_keeps P (c == key_right)
                        (cursor-IsSound (Fbcon.cursor_right e) t
                          (λ j h. (cursor_keys-IsValid e h).3) s)
                        (if_keeps P (ltb c 256) (printf-Ends k now _ _ _ (vprintf_char c) s)
                          (unfold Ends in s)))))))))
