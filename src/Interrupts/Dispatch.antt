-- ===== src/Interrupts/Dispatch.antt =====
-- The gates behind `idt_init`, and the handlers that `isr_handler` finds.
use mathlib.Core.Path.{subst}
use neodymium.Base.{
  ℕ, zero, suc, ◌^◌, ◌<◌, ◌≡◌, ◌≢◌, sym, ◌⊎◌, inl, inr, ◌==◌, ==_ne, if◌then◌else◌, for_below,
  arith,
}
use neodymium.Gdt.{IdtEntry, idt_set}
use neodymium.Gdt.Decode.{gate_base, idt_set-decodes}
use neodymium.Interrupts.{Interrupts, outb, pic_remap, pit_init, irq_install_handler, idt_init}

-- What a gate has to be.
abbrev pub Leads : IdtEntry → (handler flags : ℕ) → Type 0
Leads e handler flags = (gate_base e ≡ handler) × (e.flags ≡ flags) × (e.sel ≡ 0x08)

-- The flags of a gate: present, and open to programs at 0x80 only.
abbrev pub gate_flags : ℕ → ℕ
gate_flags j = if 0x80 == j then 0xEE else 0x8E

gate_at :
    (idt : ℕ → IdtEntry) (num base flags : ℕ)
    → base < 2 ^ 32
    → Leads (idt_set idt num base 0x08 flags num) base flags
gate_at idt num base flags h =
    let (a, b, c, d) = idt_set-decodes idt num base 0x08 flags h in (a, c, b)

gate_other :
    (idt : ℕ → IdtEntry) (num base flags j : ℕ)
    → base < 2 ^ 32
    → num ≢ j
    → idt_set idt num base 0x08 flags j ≡ idt j
gate_other idt num base flags j h ne =
    let (a, b, c, d) = idt_set-decodes idt num base 0x08 flags h in d j (==_ne num j ne)

-- The loop of `idt_init`.
gates_below :
    (n : ℕ) (stub : ℕ → ℕ) (idt : ℕ → IdtEntry) (j : ℕ)
    → ((i : ℕ) → stub i < 2 ^ 32)
    → j < n
    → Leads (for_below n (λ i t. idt_set t i (stub i) 0x08 0x8E) idt j) (stub j) 0x8E
gates_below zero stub idt j small h = absurd (omega arith)
gates_below (suc n) stub idt j small h =
    let rest = for_below n (λ i t. idt_set t i (stub i) 0x08 0x8E) idt in
    elim (below_or_same j n h) [
      | inl less ↦
          subst (λ e. Leads e (stub j) 0x8E)
            (sym (gate_other rest n (stub n) 0x8E j (small n) (λ e. omega (arith, less, e))))
            (gates_below n stub idt j small less)
      | inr e ↦
          subst (λ k. Leads (idt_set rest n (stub n) 0x08 0x8E k) (stub k) 0x8E) (sym e)
            (gate_at rest n (stub n) 0x8E (small n))
    ]
  where
    below_or_same : (j n : ℕ) → j < suc n → (j < n) ⊎ (j ≡ n)
    below_or_same j n h = omega (arith, h)

gates-Leads :
    (n : ℕ) (stub : ℕ → ℕ) (idt : ℕ → IdtEntry) (j : ℕ)
    → ((i : ℕ) → stub i < 2 ^ 32)
    → j < n
    → Leads
        (idt_set
          (for_below n (λ i t. idt_set t i (stub i) 0x08 0x8E) idt)
          0x80
          (stub 0x80)
          0x08
          0xEE
          j)
        (stub j)
        (gate_flags j)
gates-Leads n stub idt j small h =
    let rest = for_below n (λ i t. idt_set t i (stub i) 0x08 0x8E) idt in
    elim (same_or_other j) [
      | inl e ↦
          subst (λ k. Leads (idt_set rest 0x80 (stub 0x80) 0x08 0xEE k) (stub k) (gate_flags k)) e
            (gate_at rest 0x80 (stub 0x80) 0xEE (small 0x80))
      | inr (ne, closed) ↦
          subst (λ f. Leads (idt_set rest 0x80 (stub 0x80) 0x08 0xEE j) (stub j) f) (sym closed)
            (subst (λ e. Leads e (stub j) 0x8E)
              (sym (gate_other rest 0x80 (stub 0x80) 0xEE j (small 0x80) ne))
              (gates_below n stub idt j small h))
    ]
  where
    same_or_other : (j : ℕ) → (0x80 ≡ j) ⊎ ((0x80 ≢ j) × (gate_flags j ≡ 0x8E))
    same_or_other j = ground arith

-- Behind `idt_init` each of the 256 gates leads to its stub in the kernel's code. All are closed to
-- programs but the one of the system calls, 0x80.
pub idt_init-Leads :
    (stub : ℕ → ℕ) (default_handler timer_handler j : ℕ) (s : Interrupts)
    → ((i : ℕ) → stub i < 2 ^ 32)
    → j < 256
    → Leads ((idt_init stub default_handler timer_handler s).idt j) (stub j) (gate_flags j)
unfolding idt_init pic_remap pit_init irq_install_handler outb
idt_init-Leads stub default_handler timer_handler j s small h = gates-Leads 256 stub s.idt j small h
