-- ===== src/Panic/Tests.antt =====
-- Runs of the panic message.
use neodymium.Echo.Tests.{terminal}
use neodymium.Sched.Memory.{Regs}
use neodymium.Panic.Report.{panic_regs}
use neodymium.Panic.Report.Sent.{Reported, panic_regs-Sends}
use neodymium.Panic.Screen.Total.{RegsAreWords, hex_str-reads}
use neodymium.Panic.{hex_str}
use neodymium.Printf.Numbers.{read_digits}
use neodymium.Base.{
  ◌≡◌, ◌++◌, ◌^◌, Bool-cases, inl, inr, Option, none, some, List, arith, ◌==◌, if◌then◌else◌, ℕ,
  ◌≤◌, ◌<◌, refl, [], ◌∷◌, length,
}
use neodymium.Printf.{string}
use neodymium.Panic.{
  fmt_msg, terminate, fmt_loop, then_format, directive, directive_string, put_all,
}
use neodymium.Panic.Bounds.{fmt_msg-fits}

fmt_msg-fits_example : length {A = ℕ} (b'e' ∷ b'o' ∷ b'k' ∷ 0 ∷ []) ≤ 252
unfolding fmt_msg terminate fmt_loop then_format directive directive_string put_all
fmt_msg-fits_example =
    fmt_msg-fits (b'e' ∷ b'%' ∷ b's' ∷ []) (string (b'o' ∷ b'k' ∷ []) ∷ [])
      (b'e' ∷ b'o' ∷ b'k' ∷ 0 ∷ []) refl

abbrev regs : Regs
regs = record {
  gs = 0;
  fs = 0;
  es = 0;
  ds = 0;
  edi = 1;
  esi = 2;
  ebp = 16;
  esp = 4;
  ebx = 5;
  edx = 6;
  ecx = 7;
  eax = 0xDEADBEEF;
  int_no = 14;
  err_code = 2;
  eip = 0x100000;
  cs = 8;
  eflags = 0x202;
  user_esp = 0;
  user_ss = 0;
}

regs-RegsAreWords : RegsAreWords regs
regs-RegsAreWords = record { first = ground arith; second = ground arith; third = ground arith }

-- A stack with one frame, below which nothing is mapped.
abbrev stack : ℕ → Option ℕ
stack a = if a == 20 then some 0x100123 else if a == 16 then some 0 else none

stack_words : (a w : ℕ) → stack a ≡ some w → w < 2 ^ 32
stack_words a w e = elim (Bool-cases (a == 20)) [
  | inl ret ↦
      let f : some 0x100123 ≡ some w = rw ret at e in
      let v : 0x100123 ≡ w = cc f in omega (arith, v)
  | inr other ↦ elim (Bool-cases (a == 16)) [
    | inl link ↦
        let f : some 0 ≡ some w = rw (other, link) at e in let v : 0 ≡ w = cc f in omega (arith, v)
    | inr free ↦ let f : stack a ≡ none = rw (other, free) refl in absurd (cc (f, e))
  ]
]

panic_regs-Sends_example :
    (length {A = ℕ} (0x100123 ∷ []) ≤ 16)
    × Reported 9 (b'e' ∷ b'o' ∷ b'k' ∷ 0 ∷ []) regs (0x100123 ∷ []) terminal (
        panic_regs 9 stack regs (b'e' ∷ b'%' ∷ b's' ∷ []) (string (b'o' ∷ b'k' ∷ []) ∷ []) terminal)
unfolding fmt_msg terminate fmt_loop then_format directive directive_string put_all
panic_regs-Sends_example =
    panic_regs-Sends 9 stack regs (b'e' ∷ b'%' ∷ b's' ∷ []) (string (b'o' ∷ b'k' ∷ []) ∷ [])
      (b'e' ∷ b'o' ∷ b'k' ∷ 0 ∷ []) (0x100123 ∷ []) terminal refl regs-RegsAreWords stack_words
      ((λ e. omega arith), refl, (0, refl, refl))

hex_str-reads_example :
    (ds : List ℕ) × (hex_str 0xDEADBEEF ≡ some (b'0' ∷ b'x' ∷ ds ++ (0 ∷ [])))
    × (read_digits 16 0 ds ≡ 0xDEADBEEF)
    × (0 < length ds)
    × (length (b'0' ∷ b'x' ∷ ds ++ (0 ∷ [])) ≤ 13)
hex_str-reads_example = hex_str-reads 0xDEADBEEF (omega arith)
