-- ===== src/Panic/Screen.antt =====
-- The panic screen, `draw_evil_af_scary_screen`.
pub mod Total
use neodymium.Base.{
  ℕ, ◌+◌, ◌-◌, ◌==◌, Bool, true, false, not, Option, none, some, List, [], ◌∷◌, if◌then◌else◌,
  add32, sub32, codes,
}
use neodymium.Framebuffer
use neodymium.Framebuffer.{Screen, rgb, slt}
use neodymium.Sched.Memory.{Regs}
use neodymium.Panic.{hex_str}

-- The bytes of a C string in a buffer, up to the zero.
pub cstring : List ℕ → List ℕ
cstring [] = []
cstring (c ∷ cs) = let rest = cstring cs in if c == 0 then [] else c ∷ rest

-- `fb_rgb(255, 255, 255)` and `fb_rgb(180, 0, 0)`.
abbrev pub white : ℕ
white = rgb 255 255 255

abbrev pub red : ℕ
red = rgb 180 0 0

pub draw_text : (x y : ℕ) → List ℕ → Screen → Screen
draw_text x y cs s = Framebuffer.drawstring s x y cs white red

pub and_draw : Option Screen → (Screen → Option Screen) → Option Screen
and_draw none draw = none
and_draw (some s) draw = draw s

-- `hex_str` into a line, and the line on the screen; `none` is an overrun in `hex_str`.
pub draw_line : Option (List ℕ) → (x y : ℕ) → Screen → Option Screen
draw_line none x y s = none
draw_line (some line) x y s = some (draw_text x y (cstring line) s)

pub draw_hex : (x y v : ℕ) → Screen → Option Screen
draw_hex x y v s = draw_line (hex_str v) x y s

-- The name of a register at column `x`, and its value at column `at`.
pub record Field : Type 0 where
  pub name : List ℕ
  pub x : ℕ
  pub at : ℕ
  pub value : ℕ

pub field : List ℕ → (x at value : ℕ) → Field
field name x at value = record { name = name; x = x; at = at; value = value }

pub draw_fields : (y : ℕ) → List Field → Screen → Option Screen
draw_fields y [] s = some s
draw_fields y (f ∷ fs) s =
    and_draw (draw_hex f.at y f.value (draw_text f.x y f.name s)) (draw_fields y fs)

-- The three lines of the registers.
pub first_line : Regs → List Field
first_line r =
    field (codes "eax:") 8 48 r.eax
    ∷ field (codes "ebx:") 108 148 r.ebx
    ∷ field (codes "ecx:") 208 248 r.ecx
    ∷ field (codes "edx:") 308 348 r.edx
    ∷ []

pub second_line : Regs → List Field
second_line r =
    field (codes "esi:") 8 48 r.esi
    ∷ field (codes "edi:") 108 148 r.edi
    ∷ field (codes "ebp:") 208 248 r.ebp
    ∷ field (codes "esp:") 308 348 r.esp
    ∷ []

pub third_line : Regs → List Field
third_line r =
    field (codes "eip:") 8 48 r.eip
    ∷ field (codes "cs:") 108 148 r.cs
    ∷ field (codes "eflags:") 208 268 r.eflags
    ∷ field (codes "err:") 368 408 r.err_code
    ∷ []

pub draw_regs : (y : ℕ) → Regs → Screen → Option Screen
draw_regs y r s =
    and_draw (draw_fields y (first_line r) s) (λ s1.
      and_draw (draw_fields (y + 16) (second_line r) s1) (draw_fields (y + 32) (third_line r)))

-- The loop over the frames, which stops at the end of the screen.
pub draw_frames : (y : ℕ) → List ℕ → Screen → Option Screen
draw_frames y [] s = some s
draw_frames y (f ∷ fs) s = elim (slt y (sub32 s.height 20)) [
  | false ↦ some s
  | true ↦ and_draw (draw_hex 8 y f s) (draw_frames (add32 y 16) fs)
]

-- The screen with the registers; both callers pass them, so that `r` is never null.
pub draw_screen : (msg : List ℕ) → Regs → (frames : List ℕ) → Screen → Option Screen
draw_screen msg r frames s =
    if not s.enabled
    then some s
    else (let s1 = Framebuffer.clear s red in
        let s2 = draw_text 8 8 (codes "[neodymium]") s1 in
        let s3 = draw_text 8 28 (codes "KERNEL PANIC") s2 in
        let s4 = draw_text 8 48 (cstring msg) s3 in
        and_draw (draw_regs 72 r s4) (draw_frames 128 frames))
