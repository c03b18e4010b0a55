-- ===== src/Serial/Sent.antt =====
-- The port sends what is written, in order.
use neodymium.Base.{
  ℕ, ◌+◌, ◌%◌, ◌^◌, ◌<◌, ◌≤◌, ◌≡◌, refl, sym, ap, ◌∙◌, false, some, bit_and, ◌==◌, List, [], ◌∷◌,
  ◌++◌, arith, append_nil, append_assoc,
}
use neodymium.Ports.{BytePorts, Waits, wait_while-some}
use neodymium.Serial.{com1, and_then, putchar, write}

-- What the port's hardware promises: it is busy for at most `limit` reads of its status, a read sends
-- nothing, behind a read that has the bit for an empty transmitter it is not busy, and a byte written
-- to it while it is not busy is sent. Of a byte written while it is busy nothing is promised.
pub record Uart {D : Type 0} (ports : BytePorts D) (limit : ℕ) : Type 0 where
  pub sent : D → List ℕ
  pub busy : D → ℕ
  pub waits : Waits ports (com1 + 5) 0x20 false busy (λ a b. sent b ≡ sent a)
  pub bounded : (d : D) → busy d ≤ limit
  pub idle :
      (d : D)
      → (bit_and (ports.inb d (com1 + 5)).0 0x20 == 0) ≡ false
      → busy (ports.inb d (com1 + 5)).1 ≡ 0
  pub sends : (d : D) (v : ℕ) → busy d ≡ 0 → sent (ports.outb d (com1 + 0) v) ≡ sent d ++ (v ∷ [])

abbrev AreBytes : List ℕ → Type 0
AreBytes [] = Unit
AreBytes (c ∷ cs) = (c < 256) × AreBytes cs

-- With fuel for more reads than the port is busy for, `serial_write` returns, and the port has sent
-- the bytes behind what it had sent before: each is written when the port is not busy.
pub write-sent :
    {D : Type 0} (ports : BytePorts D) (limit fuel : ℕ) (u : Uart ports limit) (cs : List ℕ) (d : D)
    → limit < fuel
    → AreBytes cs
    → (e : D) × (write ports fuel cs d ≡ some e) × (u.sent e ≡ u.sent d ++ cs)
unfolding write putchar and_then
write-sent ports limit fuel u [] d h b = (d, refl, sym (append_nil (u.sent d)))
write-sent ports limit fuel u (c ∷ cs) d h b =
    let (d1, ready, quiet, (x, at, empty)) =
      wait_while-some ports fuel (com1 + 5) 0x20 false u.busy _ d u.waits
        (omega (arith, u.bounded d)) in
    let free : u.busy d1 ≡ 0 = ap u.busy at ∙ u.idle x empty in
    let d2 = ports.outb d1 (com1 + 0) (c % 2 ^ 8) in
    let (e, rest, sent) = write-sent ports limit fuel u cs d2 h b.1 in
    let byte : c % 2 ^ 8 ≡ c = omega (arith, b.0) in
    let one : u.sent d2 ≡ u.sent d ++ (c ∷ []) =
      u.sends d1 (c % 2 ^ 8) free
      ∙ ap (λ l. l ++ (c % 2 ^ 8 ∷ [])) quiet
      ∙ ap (λ x. u.sent d ++ (x ∷ [])) byte in
    (e, rw ready rest, sent ∙ ap (λ l. l ++ cs) one ∙ append_assoc (u.sent d) (c ∷ []) cs)
