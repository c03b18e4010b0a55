-- ===== src/Serial.antt =====
-- The serial port, src/drivers/serial.c.
pub mod Sent
mod Tests
use neodymium.Base.{ℕ, ◌+◌, ◌%◌, ◌^◌, false, Option, none, some, List, [], ◌∷◌}
use neodymium.Ports.{BytePorts, wait_while}

abbrev pub com1 : ℕ
com1 = 0x3F8

pub and_then : {D : Type 0} → Option D → (D → Option D) → Option D
and_then none next = none
and_then (some d) next = next d

module _ {D : Type 0} (ports : BytePorts D) where
  pub init : D → D
  init d =
      let d1 = ports.outb d (com1 + 3) 0x80 in
      let d2 = ports.outb d1 (com1 + 0) 0x01 in
      let d3 = ports.outb d2 (com1 + 1) 0x00 in
      let d4 = ports.outb d3 (com1 + 3) 0x03 in
      let d5 = ports.outb d4 (com1 + 2) 0xC7 in ports.outb d5 (com1 + 1) 0x00

  -- `fuel` bounds the reads of the line status.
  pub putchar : (fuel c : ℕ) → D → Option D
  putchar fuel c d =
      and_then (wait_while ports fuel (com1 + 5) 0x20 false d)
        (λ d1. some (ports.outb d1 (com1 + 0) (c % 2 ^ 8)))

  pub write : (fuel : ℕ) → List ℕ → D → Option D
  write fuel [] d = some d
  write fuel (c ∷ cs) d = and_then (putchar fuel c d) (write fuel cs)
