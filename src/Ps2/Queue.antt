-- ===== src/Ps2/Queue.antt =====
-- The ring buffer as a queue of at most 127 key values, oldest first.
use neodymium.Base.{
  ℕ, zero, suc, ◌+◌, ◌-◌, ◌%◌, ◌<◌, ◌≡◌, ◌⊎◌, refl, ap, true, false, List, [], ◌∷◌, ◌++◌, none,
  some, arith, ltb, ◌==◌, if◌then◌else◌, update, length, Bool-cases, inl, inr,
}
use neodymium.Ps2.{
  Keyboard, keybuf_size, buf_put, poll_read, poll_commit, finish_poll, poll, keyboard_handler,
  handle_extended, handle_plain, extended_key, key_char, key_f1, key_f11, key_f12,
}

pub record IsValid (k : Keyboard) : Type 0 where
  pub head_in : k.keybuf_head < keybuf_size
  pub tail_in : k.keybuf_tail < keybuf_size

-- The `n` cells from `t` on, round the end of the buffer.
abbrev pub window : (ℕ → ℕ) → ℕ → ℕ → List ℕ
window buf t zero = []
window buf t (suc n) = buf t ∷ window buf ((t + 1) % keybuf_size) n

abbrev pub pending : Keyboard → ℕ
pending k = (k.keybuf_head + keybuf_size - k.keybuf_tail) % keybuf_size

abbrev pub contents : Keyboard → List ℕ
contents k = window k.keybuf k.keybuf_tail (pending k)

pub length-window : (buf : ℕ → ℕ) (t n : ℕ) → length (window buf t n) ≡ n
length-window buf t zero = refl
length-window buf t (suc n) = ap suc (length-window buf ((t + 1) % keybuf_size) n)

-- A write just behind a window makes it longer.
window-update :
    (buf : ℕ → ℕ) (t n h v : ℕ)
    → t < keybuf_size
    → n < 127
    → h ≡ (t + n) % keybuf_size
    → window (update buf h v) t (suc n) ≡ window buf t n ++ (v ∷ [])
window-update buf t zero h v lt small e = let here : (h == t) ≡ true = ground arith in rw here
window-update buf t (suc n) h v lt small e =
    let there : (h == t) ≡ false = ground arith in
    rw there (
      ap (λ l. buf t ∷ l)
        (window-update buf ((t + 1) % keybuf_size) n h v (omega arith) (omega arith) (omega arith)))

-- On a valid buffer `buf_put` adds the value behind the others if fewer than 127 are pending, and drops it otherwise.
pub buf_put-contents :
    {k : Keyboard} (v : ℕ)
    → IsValid k
    → contents (buf_put k v)
      ≡ (if ltb (length (contents k)) 127 then contents k ++ (v ∷ []) else contents k)
unfolding buf_put
buf_put-contents {k} v h = elim (Bool-cases ((k.keybuf_head + 1) % keybuf_size == k.keybuf_tail)) [
  | inl full ↦
      let many : ltb (length (contents k)) 127 ≡ false =
        rw (length-window k.keybuf k.keybuf_tail (pending k))
          (ground (arith, h.head_in, h.tail_in)) in
      rw (full, many)
  | inr room ↦
      let few : ltb (length (contents k)) 127 ≡ true =
        rw (length-window k.keybuf k.keybuf_tail (pending k))
          (ground (arith, h.head_in, h.tail_in)) in
      let more : ((k.keybuf_head + 1) % keybuf_size + keybuf_size - k.keybuf_tail) % keybuf_size
          ≡ suc (pending k) =
        ground (arith, h.head_in, h.tail_in) in
      rw (room, few, more)
        (window-update k.keybuf k.keybuf_tail (pending k) k.keybuf_head v h.tail_in
          (ground (arith, h.head_in, h.tail_in)) (omega (arith, h.head_in, h.tail_in)))
]

pub buf_put-IsValid : {k : Keyboard} (v : ℕ) → IsValid k → IsValid (buf_put k v)
unfolding buf_put
buf_put-IsValid v h = ground arith

-- `ps2_poll` keeps a valid buffer valid. It takes the oldest value, and returns none exactly when nothing is pending.
pub poll-contents :
    {k : Keyboard}
    → IsValid k
    → IsValid (poll k).1
      × (((poll k).0 ≡ none) × (contents k ≡ []) × ((poll k).1 ≡ k)
          ⊎ ((c : ℕ) × ((poll k).0 ≡ some c) × (contents k ≡ c ∷ contents (poll k).1)))
unfolding poll_commit
poll-contents {k} h = elim (Bool-cases (k.keybuf_head == k.keybuf_tail)) [
  | inl empty ↦
      let zero_pending : pending k ≡ 0 = ground (arith, h.head_in, h.tail_in) in
      let e : poll k ≡ (none, k) = unfold poll poll_read finish_poll in rw empty refl in
      rw e (h, inl (refl, rw zero_pending refl, refl))
  | inr some_pending ↦
      let more : pending k
          ≡ suc ((k.keybuf_head + keybuf_size - (k.keybuf_tail + 1) % keybuf_size) % keybuf_size) =
        ground (arith, h.head_in, h.tail_in) in
      let e : poll k ≡ (some (k.keybuf k.keybuf_tail), poll_commit k.keybuf_tail k) =
        unfold poll poll_read finish_poll poll_commit in rw some_pending refl in
      rw e (
        record { head_in = h.head_in; tail_in = omega arith },
        inr (k.keybuf k.keybuf_tail, refl, rw more refl),
      )
]

-- While a value is pending, a put leaves the tail and the value there.
poll_read-buf_put :
    {k : Keyboard} (v : ℕ) (r : ℕ × ℕ)
    → IsValid k
    → poll_read k ≡ some r
    → poll_read (buf_put k v) ≡ some r
unfolding poll_read buf_put
poll_read-buf_put {k} v r h e = ground (arith, h.head_in, h.tail_in)

handle_extended-read :
    {k : Keyboard} (sc : ℕ) (r : ℕ × ℕ)
    → IsValid k
    → poll_read k ≡ some r
    → poll_read (handle_extended k sc) ≡ some r
unfolding handle_extended
handle_extended-read {k} sc r h e =
    let k1 = record k { extended = false } in
    let v : IsValid k1 = record { head_in = h.head_in; tail_in = h.tail_in } in
    let e1 : poll_read k1 ≡ some r = unfold poll_read in e in
    let put = poll_read-buf_put {k = k1} (extended_key sc) r v e1 in ground (arith, e1, put)

handle_plain-read :
    {k : Keyboard} (sc : ℕ) (r : ℕ × ℕ)
    → IsValid k
    → poll_read k ≡ some r
    → poll_read (handle_plain k sc) ≡ some r
unfolding handle_plain
handle_plain-read {k} sc r h e = ground (
  arith,
  e,
  poll_read-buf_put {k = k} (key_f1 + (sc - 0x3B)) r h e,
  poll_read-buf_put {k = k} key_f11 r h e,
  poll_read-buf_put {k = k} key_f12 r h e,
  poll_read-buf_put {k = k} (key_char k.shift_pressed k.ctrl_pressed k.caps_pressed sc) r h e,
)

keyboard_handler-read :
    {k : Keyboard} (sc : ℕ) (r : ℕ × ℕ)
    → IsValid k
    → poll_read k ≡ some r
    → poll_read (keyboard_handler k sc) ≡ some r
unfolding keyboard_handler poll_read
keyboard_handler-read {k} sc r h e =
    ground (arith, e, handle_extended-read {k = k} sc r h e, handle_plain-read {k = k} sc r h e)

-- A keyboard interrupt between the reads of `ps2_poll` and its write does no harm: the poll returns
-- the same value and leaves the same state as one that starts after the interrupt.
pub poll-interrupted :
    {k : Keyboard} (sc tail c : ℕ)
    → IsValid k
    → poll_read k ≡ some (tail, c)
    → poll (keyboard_handler k sc) ≡ (some c, poll_commit tail (keyboard_handler k sc))
unfolding poll finish_poll
poll-interrupted {k} sc tail c h e = rw (keyboard_handler-read sc (tail, c) h e) refl

-- The keys that are held stay.
pub poll_modifiers :
    (k : Keyboard)
    → let held = (poll k).1 in
      (held.ctrl_pressed ≡ k.ctrl_pressed)
      × (held.shift_pressed ≡ k.shift_pressed)
      × (held.alt_pressed ≡ k.alt_pressed)
unfolding poll poll_read finish_poll poll_commit
poll_modifiers k = elim (Bool-cases (k.keybuf_head == k.keybuf_tail)) [
  | inl empty ↦ rw empty (refl, refl, refl)
  | inr some_pending ↦ rw some_pending (refl, refl, refl)
]
