-- ===== src/Gdt.antt =====
-- Segment and gate descriptors, src/kernel/gdt.c and src/kernel/idt.c: how `gdt_set` and `idt_set`
-- spread a base and a limit over an entry's fields. The loads of the tables are left out.
pub mod Decode
use neodymium.Base.{ℕ, ◌+◌, ◌-◌, ◌*◌, ◌/◌, ◌^◌, bit_and, bit_or, update, for_below, ◌>>>◌}

pub record GdtEntry : Type 0 where
  pub limit_lo : ℕ
  pub base_lo : ℕ
  pub base_mid : ℕ
  pub access : ℕ
  pub flags_limit_hi : ℕ
  pub base_hi : ℕ

pub gdt_set : (ℕ → GdtEntry) → (num base limit access flags : ℕ) → ℕ → GdtEntry
gdt_set gdt num base limit access flags = update gdt num record {
  limit_lo = bit_and limit 0xFFFF;
  base_lo = bit_and base 0xFFFF;
  base_mid = bit_and (base >>> 16) 0xFF;
  access = access;
  flags_limit_hi = bit_or (bit_and (limit >>> 16) 0x0F) (bit_and flags 0xF0);
  base_hi = bit_and (base >>> 24) 0xFF;
}

-- The entries that `gdt_init` and `tss_init` write; `tss` is the address of the task state segment
-- and `limit` its size less one.
pub gdt_init : (ℕ → GdtEntry) → (tss limit : ℕ) → ℕ → GdtEntry
gdt_init gdt tss limit =
    let g0 = gdt_set gdt 0 0 0 0 0 in
    let g1 = gdt_set g0 1 0 0xFFFFF 0x9A 0xCF in
    let g2 = gdt_set g1 2 0 0xFFFFF 0x92 0xCF in
    let g3 = gdt_set g2 3 0 0xFFFFF 0xFA 0xCF in
    let g4 = gdt_set g3 4 0 0xFFFFF 0xF2 0xCF in gdt_set g4 5 tss limit 0x89 0x00

pub record IdtEntry : Type 0 where
  pub base_lo : ℕ
  pub sel : ℕ
  pub always0 : ℕ
  pub flags : ℕ
  pub base_hi : ℕ

pub idt_set : (ℕ → IdtEntry) → (num base sel flags : ℕ) → ℕ → IdtEntry
idt_set idt num base sel flags = update idt num record {
  base_lo = bit_and base 0xFFFF;
  base_hi = bit_and (base >>> 16) 0xFFFF;
  sel = sel;
  always0 = 0;
  flags = flags;
}

-- The task state segment as its 26 words, and two of them.
abbrev pub tss_words : ℕ
tss_words = 26

abbrev pub tss_esp0 : ℕ
tss_esp0 = 1

abbrev pub tss_ss0 : ℕ
tss_ss0 = 2

abbrev pub gdt_data_seg : ℕ
gdt_data_seg = 0x10

-- `tss_init` up to the entry of the segment, which `gdt_init` above writes.
pub tss_init : (ℕ → ℕ) → ℕ → ℕ
tss_init tss = update (for_below tss_words (λ i t. update t i 0) tss) tss_ss0 gdt_data_seg

pub tss_set_esp0 : (ℕ → ℕ) → (esp0 : ℕ) → ℕ → ℕ
tss_set_esp0 tss esp0 = update tss tss_esp0 esp0
