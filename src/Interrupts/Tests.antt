-- ===== src/Interrupts/Tests.antt =====
-- The gates of a kernel with its stubs 16 bytes apart.
use neodymium.Base.{ℕ, ◌+◌, ◌*◌, ◌%◌, ◌^◌, [], arith}
use neodymium.Interrupts.{Interrupts, idt_init}
use neodymium.Interrupts.Dispatch.{Leads, gate_flags, idt_init-Leads}

abbrev stub : ℕ → ℕ
stub i = (0x101000 + i * 16) % 2 ^ 32

abbrev cold : Interrupts
cold = record {
  idt = λ i. record { base_lo = 0; sel = 0; always0 = 0; flags = 0; base_hi = 0 };
  irq_handlers = λ i. 0;
  exception_handlers = λ i. 0;
  outs = [];
}

idt_init-Leads_example : Leads ((idt_init stub 1 2 cold).idt 0x80) (stub 0x80) (gate_flags 0x80)
idt_init-Leads_example = idt_init-Leads stub 1 2 0x80 cold (λ i. omega arith) (omega arith)
