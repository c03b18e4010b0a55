-- ===== src/Interrupts.antt =====
-- The interrupts, src/kernel/idt.c: the gates, the tables of handlers, and `isr_handler`, which calls
-- a handler and acknowledges the interrupt. A handler acts on the registers and on a state `S`. The
-- writes to ports are recorded in `outs`, newest first, as port and value.
pub mod Dispatch
mod Tests
use neodymium.Base.{
  ℕ, ◌+◌, ◌-◌, ◌*◌, ◌/◌, bit_and, Bool, true, false, not, ◌&&◌, ◌||◌, Option, none, some, List, [],
  ◌∷◌, ltb, leb, ◌==◌, if◌then◌else◌, update, for_below,
}
use neodymium.Gdt.{IdtEntry, idt_set}
use neodymium.Sched.Memory.{Regs}

-- The state of the interrupts; handlers are known by an index into the code, 0 for none.
pub record Interrupts : Type 0 where
  pub idt : ℕ → IdtEntry
  pub irq_handlers : ℕ → ℕ
  pub exception_handlers : ℕ → ℕ
  pub outs : List (ℕ × ℕ)

pub outb : (port value : ℕ) → Interrupts → Interrupts
outb port value s = record s { outs = (port, value) ∷ s.outs }

pub pic_remap : Interrupts → Interrupts
pic_remap s = outb 0xA1 0xFF (
    outb 0x21 0xFE (
      outb 0xA1 0x01 (
        outb 0x21 0x01 (
          outb 0xA1 0x02 (
            outb 0x21 0x04
              (outb 0xA1 0x28 (outb 0x21 0x20 (outb 0xA0 0x11 (outb 0x20 0x11 s)))))))))

abbrev pub divisor : ℕ
divisor = 4773

pub pit_init : Interrupts → Interrupts
pit_init s = outb 0x40 (divisor / 256) (outb 0x40 (bit_and divisor 0xFF) (outb 0x43 0x36 s))

pub irq_install_handler : (irq handler : ℕ) → Interrupts → Interrupts
irq_install_handler irq handler s = record s { irq_handlers = update s.irq_handlers irq handler }

-- A number from 2 ^ 31 on is a negative `int`, which the guard refuses too.
pub exception_install_handler : (num handler : ℕ) → Interrupts → Interrupts
exception_install_handler num handler s =
    if ltb num 32
    then record s { exception_handlers = update s.exception_handlers num handler }
    else s

-- `idt_init` behind `gdt_init`; `stub` is the table of the stubs, and the two handlers are the default
-- one of the exceptions and that of the timer. 0x08 is the selector of the kernel's code.
pub idt_init : (stub : ℕ → ℕ) → (default_handler timer_handler : ℕ) → Interrupts → Interrupts
idt_init stub default_handler timer_handler s =
    let s1 = record s { idt = for_below 256 (λ i t. idt_set t i (stub i) 0x08 0x8E) s.idt } in
    let s2 = record s1 {
      exception_handlers = for_below 32 (λ i t. update t i default_handler) s1.exception_handlers;
    } in
    let s3 = irq_install_handler 0 timer_handler (pit_init (pic_remap s2)) in
    record s3 { idt = idt_set s3.idt 0x80 (stub 0x80) 0x08 0xEE }

module _ {S : Type 0} (call : (handler : ℕ) → Regs → S → Regs × S)
    (syscall : Regs → S → Regs × S) where
  -- The call of a handler, if there is one.
  pub call_if : (handler : ℕ) → Regs → S → Regs × S
  call_if handler r s = if handler == 0 then (r, s) else call handler r s

  -- The acknowledgements behind a hardware interrupt, whose number is read again.
  pub acknowledge : (int_no : ℕ) → Interrupts → Interrupts
  acknowledge int_no i = let i1 = if leb 40 int_no then outb 0xA0 0x20 i else i in outb 0x20 0x20 i1

  pub isr_handler : Interrupts → Regs → S → Interrupts × Regs × S
  isr_handler i r s =
      if r.int_no == 0x80
      then (let (r1, s1) = syscall r s in (i, r1, s1))
      else if ltb r.int_no 32
      then (let (r1, s1) = call_if (i.exception_handlers r.int_no) r s in (i, r1, s1))
      else if leb 32 r.int_no && leb r.int_no 47
      then (let (r1, s1) = call_if (i.irq_handlers (r.int_no - 32)) r s in
          (acknowledge r1.int_no i, r1, s1))
      else (i, r, s)
