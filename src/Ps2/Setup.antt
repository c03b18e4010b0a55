-- ===== src/Ps2/Setup.antt =====
-- `ps2_init`, over the byte ports. The handler of interrupt 1 is installed in the tables of
-- Interrupts, where handlers are known by an index.
use neodymium.Base.{ℕ, zero, suc, true, bit_and, not, Option, none, some, ◌==◌, if◌then◌else◌}
use neodymium.Interrupts.{Interrupts, irq_install_handler}
use neodymium.Ports.{BytePorts, wait_while}

abbrev pub ps2_data : ℕ
ps2_data = 0x60

abbrev pub ps2_status : ℕ
ps2_status = 0x64

abbrev pub ps2_cmd : ℕ
ps2_cmd = 0x64

pub and_then : {D : Type 0} → Option D → (D → Option D) → Option D
and_then none next = none
and_then (some d) next = next d

module _ {D : Type 0} (ports : BytePorts D) where
  -- `while (inb(PS2_STATUS) & 0x01) inb(PS2_DATA)`; `none` is out of fuel.
  pub drain : (fuel : ℕ) → D → Option D
  drain zero d = none
  drain (suc n) d =
      let (v, d1) = ports.inb d ps2_status in
      let rest = drain n (ports.inb d1 ps2_data).1 in
      if not (bit_and v 0x01 == 0) then rest else some d1

  -- `outb(0x21, inb(0x21) & ~0x02)`.
  pub unmask : D → D
  unmask d = let (v, d1) = ports.inb d 0x21 in ports.outb d1 0x21 (bit_and v 0xFD)

  pub start_controller : (fuel : ℕ) → D → Option D
  start_controller fuel d = and_then (wait_while ports fuel ps2_status 0x02 true d) (λ d1.
      and_then (wait_while ports fuel ps2_status 0x02 true (ports.outb d1 ps2_cmd 0xAE))
        (λ d2. and_then (drain fuel (ports.outb d2 ps2_data 0xF4)) (λ d3. some (unmask d3))))

  pub init : (fuel keyboard_handler : ℕ) → Interrupts → D → Interrupts × Option D
  init fuel keyboard_handler i d =
      (irq_install_handler 1 keyboard_handler i, start_controller fuel d)
