-- ===== src/Echo/Round.antt =====
-- One round of the loops, from the key buffer to the screen.
use neodymium.Base.{ℕ, ◌≡◌, sym, ◌∙◌, Bool, true, Option, some, none, if_keeps}
use neodymium.Ps2
use neodymium.Ps2.{Keyboard}
use neodymium.Ps2.Queue
use neodymium.Ps2.Queue.{contents, poll-contents, poll_modifiers}
use neodymium.Fbcon
use neodymium.Fbcon.Bounds.{tick-IsValid}
use neodymium.Echo.{
  Terminal, kernel_key, yield_key, blink, polled, then_blink, kernel_round, yield_idle,
  toggle_clear, toggle,
}
use neodymium.Echo.Chain.{kernel_key-key_action, yield_key-key_action}
use neodymium.Echo.Keeps.{
  IsSound, Ends, on_console-IsSound, key_action-Ends, toggle_clear-IsSound, toggle-IsSound,
}

-- A key that panics with some keys held does so with the same keys held.
Ends-held :
    (k k' : Keyboard) (o : Option Terminal)
    → (k'.ctrl_pressed ≡ k.ctrl_pressed)
      × (k'.shift_pressed ≡ k.shift_pressed)
      × (k'.alt_pressed ≡ k.alt_pressed)
    → Ends k' o
    → Ends k o
unfolding Ends
Ends-held k k' (some u) same h = h
Ends-held k k' none same h = (sym same.0 ∙ h.0, sym same.1 ∙ h.1, sym same.2 ∙ h.2)

polled-Ends :
    (r : Option ℕ × Keyboard) (act : ℕ → Terminal → Option Terminal) (t : Terminal)
    → ((c : ℕ) (u : Terminal) → IsSound u → Ends u.keyboard (act c u))
    → IsSound t
    → Queue.IsValid r.1
    → (r.1.ctrl_pressed ≡ t.keyboard.ctrl_pressed)
      × (r.1.shift_pressed ≡ t.keyboard.shift_pressed)
      × (r.1.alt_pressed ≡ t.keyboard.alt_pressed)
    → Ends t.keyboard (polled r act t)
unfolding polled
polled-Ends (none, k) act t acts s valid same = unfold Ends in s
polled-Ends (some c, k) act t acts s valid same =
    Ends-held t.keyboard k (act c (record t { keyboard = k })) same
      (acts c (record t { keyboard = k }) record { console = s.console; keyboard = valid })

blink-IsSound : (now : ℕ) {t : Terminal} → IsSound t → IsSound (blink now t)
unfolding blink
blink-IsSound now {t} s =
    on_console-IsSound (Fbcon.tick t.screen.enabled now)
      (λ k h. tick-IsValid t.screen.enabled now h) s

then_blink-Ends :
    (k : Keyboard) (now : ℕ) (blinks : Bool) (o : Option Terminal)
    → Ends k o
    → Ends k (then_blink now blinks o)
unfolding then_blink Ends
then_blink-Ends k now blinks none h = h
then_blink-Ends k now blinks (some t) h = if_keeps IsSound blinks (blink-IsSound now h) h

-- A round of the main loop, and one of `yield` without a task to run, leave the terminal in order,
-- with the cursor in the grid and the key buffer's indices in range, whatever the next key is; or
-- control, shift and alt are held, and the round may panic.
pub kernel_round-Ends :
    (now : ℕ) (fb_ok : Bool) {t : Terminal}
    → IsSound t
    → Ends t.keyboard (kernel_round now fb_ok t) × Ends t.keyboard (yield_idle now t)
unfolding kernel_round yield_idle
kernel_round-Ends now fb_ok {t} s =
    let valid = (poll-contents s.keyboard).0 in
    let same = poll_modifiers t.keyboard in
    (
      then_blink-Ends t.keyboard now fb_ok _ (
          polled-Ends (Ps2.poll t.keyboard) (kernel_key now fb_ok) t
            (λ c u h.
              rw (kernel_key-key_action now fb_ok c u)
                (key_action-Ends now fb_ok (toggle_clear now) c h (toggle_clear-IsSound now h)))
            s valid same),
      then_blink-Ends t.keyboard now true _ (
          polled-Ends (Ps2.poll t.keyboard) (yield_key now) t
            (λ c u h.
              rw (yield_key-key_action now c u)
                (key_action-Ends now u.screen.enabled (toggle now) c h (toggle-IsSound now h)))
            s valid same),
    )
