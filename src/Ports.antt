-- ===== src/Ports.antt =====
-- The byte ports, src/kernel/asm/io.h, as an interface on the state of the devices, and the loops that
-- wait for a bit of one.
use neodymium.Base.{
  ℕ, zero, suc, ◌-◌, ◌<◌, ◌≤◌, ◌≡◌, refl, Bool, false, bit_and, not, Option, none, some, arith,
  ◌==◌, Bool-cases, inl, inr, if◌then◌else◌,
}

-- `outb`, and `inb` with the byte.
pub record BytePorts (D : Type 0) : Type 0 where
  pub outb : D → (port value : ℕ) → D
  pub inb : D → (port : ℕ) → ℕ × D

module _ {D : Type 0} (ports : BytePorts D) where
  -- `while (inb(port) & mask)` if `set` is true, and `while (!(inb(port) & mask))` otherwise; `none` is
  -- out of fuel.
  unfoldable pub wait_while : (fuel port mask : ℕ) (set : Bool) → D → Option D
  wait_while zero port mask set d = none
  wait_while (suc n) port mask set d =
      let (v, d1) = ports.inb d port in
      let rest = wait_while n port mask set d1 in
      if (if set then not (bit_and v mask == 0) else bit_and v mask == 0) then rest else some d1

-- What a device promises of a port: `left d` reads later at most, the bit is as it is waited for, and
-- what `P` says stays.
pub record Waits {D : Type 0} (ports : BytePorts D) (port mask : ℕ) (set : Bool) (left : D → ℕ)
    (P : D → D → Type 0) : Type 0 where
  pub done :
      (d : D)
      → left d ≡ 0
      → (if set
          then not (bit_and (ports.inb d port).0 mask == 0)
          else bit_and (ports.inb d port).0 mask == 0)
        ≡ false
  pub counts : (d : D) → left (ports.inb d port).1 ≤ left d - 1
  pub keeps : (d : D) → P d (ports.inb d port).1
  pub trans : (a b c : D) → P a b → P b c → P a c

-- With fuel for that many reads and one more, the loop ends, behind a read that gave the bit as it is
-- waited for.
pub wait_while-some :
    {D : Type 0} (ports : BytePorts D) (fuel port mask : ℕ) (set : Bool) (left : D → ℕ)
    (P : D → D → Type 0) (d : D)
    → Waits ports port mask set left P
    → left d < fuel
    → (e : D) × (wait_while ports fuel port mask set d ≡ some e)
      × P d e
      × ((x : D) × (e ≡ (ports.inb x port).1)
          × ((if set
                then not (bit_and (ports.inb x port).0 mask == 0)
                else bit_and (ports.inb x port).0 mask == 0)
              ≡ false))
unfolding wait_while
wait_while-some ports zero port mask set left P d w h = absurd (omega arith)
wait_while-some ports (suc n) port mask set left P d w h =
    elim (Bool-cases (
      if set
      then not (bit_and (ports.inb d port).0 mask == 0)
      else bit_and (ports.inb d port).0 mask == 0)) [
        | inr stop ↦ rw stop ((ports.inb d port).1, refl, w.keeps d, (d, refl, stop))
        | inl more ↦ elim (Bool-cases (left d == 0)) [
          | inl zero_left ↦ absurd (ground (arith, w.done d (ground (arith, zero_left)), more))
          | inr some_left ↦
              let d1 = (ports.inb d port).1 in
              let (e, eq, p, last) =
                wait_while-some ports n port mask set left P d1 w
                  (ground (arith, w.counts d, some_left)) in
              rw more (e, eq, w.trans d d1 e (w.keeps d) p, last)
        ]
      ]
