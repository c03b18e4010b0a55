-- ===== src/Echo/Typed.antt =====
-- A character from the key buffer reaches the serial port and the console.
use neodymium.Base.{
  ℕ, ◌+◌, ◌%◌, ◌^◌, ◌<◌, ◌≤◌, ◌≡◌, ◌⊎◌, inl, inr, refl, ap, ◌∙◌, Bool, true, false, ◌&&◌, Option,
  some, none, arith, List, [], ◌∷◌, ◌++◌, ltb, leb, ◌==◌, then_keeps, else_keeps,
}
use neodymium.Ps2
use neodymium.Ps2.{Keyboard, key_f1, key_f12, key_up, key_down, key_left, key_right}
use neodymium.Ps2.Queue.{contents, poll-contents}
use neodymium.Fbcon.Cell.{putchar_cell, tick_buf}
use neodymium.Printf.{word}
use neodymium.Printf.Texts.{vprintf_char}
use neodymium.Echo.{
  Terminal, on_console, putchar, put_all, printf, kernel_key, yield_key, blink, polled, then_blink,
  kernel_round, yield_idle, toggle_clear, toggle,
}
use neodymium.Echo.Chain.{key_action, kernel_key-key_action, yield_key-key_action}
use neodymium.Echo.Keeps.{IsSound, undrawn}

-- `u` is `t` with the character `c` typed; `cell` is where the cursor was.
pub record Typed (t u : Terminal) (c : ℕ) (rest : List ℕ) : Type 0 where
  pub serial : u.serial ≡ t.serial ++ (c ∷ [])
  pub left : contents u.keyboard ≡ rest
  pub cell : u.console.buf t.console.cy t.console.cx ≡ c

printf_char :
    (now c : ℕ) (t : Terminal)
    → c < 256
    → printf now (b'%' ∷ b'c' ∷ []) (word c ∷ []) t ≡ some (putchar now c t)
unfolding printf put_all
printf_char now c t h =
    let same : c % 2 ^ 8 ≡ c = omega arith in rw (vprintf_char c, same, printf) refl

-- A printed character is none of the keys that the loops know.
key_action_char :
    (now : ℕ) (shows : Bool) (act : Terminal → Terminal) (c : ℕ) (t : Terminal)
    → 32 ≤ c
    → c < 256
    → key_action now shows act c t ≡ some (putchar now c t)
unfolding key_action
key_action_char now shows act c t lo hi =
    let k = t.keyboard in
    let P : Option Terminal → Type 0 = λ o. o ≡ some (putchar now c t) in
    else_keeps P (c == 8) _ (ground arith) (
      else_keeps P (c == key_f12 && (k.ctrl_pressed && (k.shift_pressed && k.alt_pressed))) _
        (ground arith)
        (else_keeps P (c == key_f12 && (k.ctrl_pressed && (k.shift_pressed && shows))) _
          (ground arith)
          (else_keeps P (leb key_f1 c && leb c key_f12) _ (ground arith) (
            else_keeps P (c == key_up) _ (ground arith) (
              else_keeps P (c == key_down) _ (ground arith) (
                else_keeps P (c == key_left) _ (ground arith) (
                  else_keeps P (c == key_right) _ (ground arith)
                    (then_keeps P (ltb c 256) _ (ground arith) (printf_char now c t hi)))))))))

putchar-Typed :
    (now c : ℕ) (t : Terminal) (k : Keyboard)
    → IsSound t
    → 32 ≤ c
    → (t.console.cx + 1 < t.console.cols) ⊎ (t.console.cy + 1 < t.console.rows)
    → Typed t (putchar now c (record t { keyboard = k })) c (contents k)
unfolding putchar on_console
putchar-Typed now c t k s lo room = record {
  serial = refl;
  left = refl;
  cell =
      putchar_cell t.screen.enabled now (record t.console { drawn = [] }) c (undrawn s.console) lo
        room;
}

blink-Typed :
    (now : ℕ) (blinks : Bool) (t u : Terminal) (c : ℕ) (rest : List ℕ)
    → Typed t u c rest
    → (w : Terminal) × (then_blink now blinks (some u) ≡ some w) × Typed t w c rest
unfolding then_blink blink on_console
blink-Typed now false t u c rest h = (u, refl, h)
blink-Typed now true t u c rest h = (
  blink now u,
  refl,
  record {
    serial = h.serial;
    left = h.left;
    cell =
        ap (λ b. b t.console.cy t.console.cx)
          (tick_buf u.screen.enabled now (record u.console { drawn = [] }))
        ∙ h.cell;
  },
)

polled-some :
    (r : Option ℕ × Keyboard) (c : ℕ) (act : ℕ → Terminal → Option Terminal) (t : Terminal)
    → r.0 ≡ some c
    → polled r act t ≡ act c (record t { keyboard = r.1 })
unfolding polled
polled-some (none, k) c act t e = cc
polled-some (some d, k) c act t e = let same : d ≡ c = cc e in rw same refl

-- The oldest key of the buffer.
poll_first :
    (k : Keyboard) (c : ℕ) (rest : List ℕ)
    → Ps2.Queue.IsValid k
    → contents k ≡ c ∷ rest
    → ((Ps2.poll k).0 ≡ some c) × (contents (Ps2.poll k).1 ≡ rest)
poll_first k c rest h e = elim (poll-contents h).1 [
  | inl empty ↦ absurd (cc (e, empty.1))
  | inr (d, polled, now) ↦ (cc (e, polled, now), cc (e, now))
]

-- Let the oldest key of the buffer be a printed character, and the cursor not in the last cell of the
-- grid. A round of either loop takes it from the buffer, sends it to the serial port behind what was
-- sent, and puts it into the cell that the cursor was in.
pub kernel_round-Typed :
    (now c : ℕ) (fb_ok : Bool) (rest : List ℕ) (t : Terminal)
    → IsSound t
    → contents t.keyboard ≡ c ∷ rest
    → 32 ≤ c
    → c < 256
    → (t.console.cx + 1 < t.console.cols) ⊎ (t.console.cy + 1 < t.console.rows)
    → ((u : Terminal) × (kernel_round now fb_ok t ≡ some u) × Typed t u c rest)
      × ((u : Terminal) × (yield_idle now t ≡ some u) × Typed t u c rest)
unfolding kernel_round yield_idle
kernel_round-Typed now c fb_ok rest t s e lo hi room =
    let (first, left) = poll_first t.keyboard c rest s.keyboard e in
    let k = (Ps2.poll t.keyboard).1 in
    let u0 : Terminal = record t { keyboard = k } in
    let typed : Typed t (putchar now c u0) c rest =
      rw (← left) (putchar-Typed now c t k s lo room) in
    let (u1, eq1, h1) = blink-Typed now fb_ok t (putchar now c u0) c rest typed in
    let (u2, eq2, h2) = blink-Typed now true t (putchar now c u0) c rest typed in
    (
      (
        u1,
        ap (then_blink now fb_ok) (
              polled-some (Ps2.poll t.keyboard) c (kernel_key now fb_ok) t first
              ∙ kernel_key-key_action now fb_ok c u0
              ∙ key_action_char now fb_ok (toggle_clear now) c u0 lo hi)
            ∙ eq1,
        h1,
      ),
      (
        u2,
        ap (then_blink now true) (
              polled-some (Ps2.poll t.keyboard) c (yield_key now) t first
              ∙ yield_key-key_action now c u0
              ∙ key_action_char now t.screen.enabled (toggle now) c u0 lo hi)
            ∙ eq2,
        h2,
      ),
    )
