-- ===== src/Serial/Tests.antt =====
-- A port that is busy for a read of its status behind each byte, and drops a byte that comes then.
use neodymium.Base.{
  ℕ, ◌≡◌, refl, ◌∙◌, Bool, true, false, some, List, [], ◌∷◌, ◌++◌, arith, ◌==◌, ◌&&◌, if◌then◌else◌,
}
use neodymium.Ports.{BytePorts, wait_while}
use neodymium.Serial.{write, putchar, and_then}
use neodymium.Serial.Sent.{Uart, write-sent}

record Line : Type 0 where
  out : List ℕ
  ready : Bool

abbrev line_ports : BytePorts Line
line_ports = record {
  outb = λ d port v. record {
    out = if port == 0x3F8 && d.ready then d.out ++ (v ∷ []) else d.out;
    ready = false;
  };
  inb = λ d port. (if d.ready then 0x20 else 0, record { out = d.out; ready = true });
}

abbrev start : Line
start = record { out = []; ready = false }

write_runs :
    write line_ports 5 (b'h' ∷ b'i' ∷ []) start
    ≡ some (record { out = b'h' ∷ b'i' ∷ []; ready = false })
unfolding write putchar and_then wait_while
write_runs = refl

line_uart : Uart line_ports 1
line_uart = record {
  sent = λ d. d.out;
  busy = λ d. if d.ready then 0 else 1;
  waits = record {
    done = λ d e. ground arith;
    counts = λ d. ground arith;
    keeps = λ d. refl;
    trans = λ a b c p q. q ∙ p;
  };
  bounded = λ d. ground arith;
  idle = λ d e. refl;
  sends = λ d v e. ground arith;
}

write-sent_example :
    (e : Line) × (write line_ports 2 (b'h' ∷ b'i' ∷ []) start ≡ some e)
    × (line_uart.sent e ≡ line_uart.sent start ++ (b'h' ∷ b'i' ∷ []))
write-sent_example =
    write-sent line_ports 1 2 line_uart (b'h' ∷ b'i' ∷ []) start (omega arith)
      (omega arith, (omega arith, tt))
