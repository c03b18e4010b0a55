-- ===== src/Gdt/Decode.antt =====
-- What the processor reads back from an entry's fields.
use neodymium.Base.{
  ℕ, ◌+◌, ◌*◌, ◌/◌, ◌%◌, ◌^◌, ◌<◌, ◌≡◌, refl, false, bit_and, bit_or, arith, ◌==◌, ==_iff, ==_refl,
}
use neodymium.Base.Bits.{bit_and_low, bit_and_high, holds_below, holds_below-at}
use neodymium.Gdt.{GdtEntry, IdtEntry, gdt_set, idt_set}

-- The processor's view of an entry.
abbrev pub segment_base : GdtEntry → ℕ
segment_base e = e.base_lo + e.base_mid * 2 ^ 16 + e.base_hi * 2 ^ 24

abbrev pub segment_limit : GdtEntry → ℕ
segment_limit e = e.limit_lo + e.flags_limit_hi % 16 * 2 ^ 16

abbrev pub segment_flags : GdtEntry → ℕ
segment_flags e = e.flags_limit_hi / 16 * 16

abbrev pub gate_base : IdtEntry → ℕ
gate_base e = e.base_lo + e.base_hi * 2 ^ 16

nibbles : (a b : ℕ) → a < 16 → b < 16 → bit_or a (b * 16) ≡ a + b * 16
unfolding holds_below
nibbles a b ha hb = (==_iff _ _).0 (
    holds_below-at 16 (λ b. bit_or a (b * 16) == a + b * 16) b
      (holds_below-at 16 (λ a. holds_below 16 (λ b. bit_or a (b * 16) == a + b * 16)) a refl ha) hb)

-- An entry that `gdt_set` writes has the base, the limit, the access byte and the flags it was given,
-- for a base of 32 bits, a limit of 20 and flags in the high nibble; the other entries stay.
pub gdt_set-decodes :
    (gdt : ℕ → GdtEntry) (num base limit access flags : ℕ)
    → base < 2 ^ 32
    → limit < 2 ^ 20
    → flags < 2 ^ 8
    → let e = gdt_set gdt num base limit access flags num in
      (segment_base e ≡ base)
      × (segment_limit e ≡ limit)
      × (segment_flags e ≡ flags / 16 * 16)
      × (e.access ≡ access)
      × ((j : ℕ) → (num == j) ≡ false → gdt_set gdt num base limit access flags j ≡ gdt j)
unfolding gdt_set
gdt_set-decodes gdt num base limit access flags hb hl hf =
    let low : bit_and (limit / 2 ^ 16) 0x0F ≡ limit / 2 ^ 16 % 16 =
      bit_and_low 4 (limit / 2 ^ 16) in
    let high : bit_and flags 0xF0 ≡ bit_and (flags / 16) 15 * 16 = bit_and_high 4 flags 15 in
    let four : bit_and (flags / 16) 15 ≡ flags / 16 % 16 = bit_and_low 4 (flags / 16) in
    let both : bit_or (bit_and (limit / 2 ^ 16) 0x0F) (bit_and flags 0xF0)
        ≡ limit / 2 ^ 16 % 16 + flags / 16 % 16 * 16 =
      rw (low, high, four)
        (nibbles (limit / 2 ^ 16 % 16) (flags / 16 % 16) (omega arith) (omega arith)) in
    rw (==_refl num) (
      omega (
        arith,
        bit_and_low 16 base,
        bit_and_low 8 (base / 2 ^ 16),
        bit_and_low 8 (base / 2 ^ 24),
      ),
      omega (arith, bit_and_low 16 limit, both),
      omega (arith, both),
      refl,
      λ j ne. rw ne refl,
    )

-- A gate that `idt_set` writes leads to the handler it was given; the other gates stay.
pub idt_set-decodes :
    (idt : ℕ → IdtEntry) (num base sel flags : ℕ)
    → base < 2 ^ 32
    → let e = idt_set idt num base sel flags num in
      (gate_base e ≡ base)
      × (e.sel ≡ sel)
      × (e.flags ≡ flags)
      × ((j : ℕ) → (num == j) ≡ false → idt_set idt num base sel flags j ≡ idt j)
unfolding idt_set
idt_set-decodes idt num base sel flags hb = rw (==_refl num) (
  omega (arith, bit_and_low 16 base, bit_and_low 16 (base / 2 ^ 16)),
  refl,
  refl,
  λ j ne. rw ne refl,
)
