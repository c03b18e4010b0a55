-- ===== src/Panic/Screen/Total.antt =====
-- The panic screen is drawn to its end, with every text and number at its place.
use mathlib.Core.Path.{subst}
use neodymium.Base.{
  ℕ, ◌^◌, ◌<◌, ◌≤◌, ◌≡◌, refl, ap, ◌∙◌, not, Option, some, List, [], ◌∷◌, ◌++◌, arith, length,
  length-append, Bool-cases, inl, inr, codes, Bool, if◌then◌else◌, true, false, ◌⊎◌, add32, sub32,
}
use neodymium.Printf.{print_hex}
use neodymium.Printf.Numbers.{read_digits, print_hex-reads}
use neodymium.Sched.Memory.{Regs}
use neodymium.Framebuffer
use neodymium.Framebuffer.{Screen, slt, rgb}
use neodymium.Panic.{hex_str, hex_string}
use neodymium.Panic.Screen.{
  cstring, and_draw, draw_line, draw_hex, draw_text, draw_fields, draw_regs, draw_frames,
  draw_screen, Field, first_line, second_line, third_line, field,
}

hex_string_lem : (v : ℕ) → hex_string v ≡ print_hex v
unfolding hex_string print_hex
hex_string_lem v = refl

-- `hex_str` of a word writes "0x", digits, one at least, that read as the word, and the zero, in 13
-- bytes at most, where its callers have 32 and 64.
pub hex_str-reads :
    (v : ℕ)
    → v < 2 ^ 32
    → (ds : List ℕ) × (hex_str v ≡ some (b'0' ∷ b'x' ∷ ds ++ (0 ∷ [])))
      × (read_digits 16 0 ds ≡ v)
      × (0 < length ds)
      × (length (b'0' ∷ b'x' ∷ ds ++ (0 ∷ [])) ≤ 13)
unfolding hex_str
hex_str-reads v h =
    let (ds, e, reads, some_digit, fits) = print_hex-reads v h in
    (
      ds,
      rw (hex_string_lem v ∙ e, hex_str) refl,
      reads,
      some_digit,
      omega (arith, fits, length-append ds (0 ∷ [])),
    )

-- What is drawn at a place of the screen: a text, or a number.
pub data Item : Type 0 where
  label : (x y : ℕ) → List ℕ → Item
  number : (x y v : ℕ) → Item

-- A string of white on red.
abbrev pub write : (x y : ℕ) → List ℕ → Screen → Screen
write x y cs s = Framebuffer.drawstring s x y cs (rgb 255 255 255) (rgb 180 0 0)

-- "0x" and digits, one at least, that read as the number, as a C string.
abbrev pub IsHex : (v : ℕ) → List ℕ → Type 0
IsHex v cs =
    (ds : List ℕ) × (read_digits 16 0 ds ≡ v)
    × (0 < length ds)
    × (cs ≡ cstring (b'0' ∷ b'x' ∷ ds ++ (0 ∷ [])))

-- `u` is `s` with the items drawn, in order.
abbrev pub Drawn : List Item → (s u : Screen) → Type 0
Drawn [] s u = u ≡ s
Drawn (label x y cs ∷ is) s u = Drawn is (write x y cs s) u
Drawn (number x y v ∷ is) s u = (cs : List ℕ) × IsHex v cs × Drawn is (write x y cs s) u

-- The frames, one every 16 lines from `y` on, while `y` is less than the height minus 20.
abbrev pub FramesDrawn : (y : ℕ) → List ℕ → (s u : Screen) → Type 0
FramesDrawn y [] s u = u ≡ s
FramesDrawn y (f ∷ fs) s u =
    ((slt y (sub32 s.height 20) ≡ false) × (u ≡ s))
    ⊎ ((slt y (sub32 s.height 20) ≡ true)
        × ((cs : List ℕ) × IsHex f cs × FramesDrawn (add32 y 16) fs (write 8 y cs s) u))

draw_hex-some :
    (x y v : ℕ) (s : Screen)
    → v < 2 ^ 32
    → (cs : List ℕ) × IsHex v cs × (draw_hex x y v s ≡ some (write x y cs s))
unfolding draw_hex draw_line draw_text
draw_hex-some x y v s h =
    let (ds, e, reads, some_digit, _) = hex_str-reads v h in
    (
      cstring (b'0' ∷ b'x' ∷ ds ++ (0 ∷ [])),
      (ds, reads, some_digit, refl),
      ap (λ l. draw_line l x y s) e,
    )

-- A drawing that returns, with the items drawn.
Draws : List Item → Screen → Option Screen → Type 0
Draws is s o = (u : Screen) × (o ≡ some u) × Drawn is s u

Drawn-append :
    (is js : List Item) (s u w : Screen) → Drawn is s u → Drawn js u w → Drawn (is ++ js) s w
Drawn-append [] js s u w e k = subst (λ z. Drawn js z w) e k
Drawn-append (label x y cs ∷ is) js s u w d k = Drawn-append is js (write x y cs s) u w d k
Drawn-append (number x y v ∷ is) js s u w (cs, h, d) k =
    (cs, h, Drawn-append is js (write x y cs s) u w d k)

and_draw-Draws :
    (is js : List Item) (s : Screen) (o : Option Screen) (draw : Screen → Option Screen)
    → Draws is s o
    → ((u : Screen) → Draws js u (draw u))
    → Draws (is ++ js) s (and_draw o draw)
unfolding Draws and_draw
and_draw-Draws is js s o draw (u, e, d) h =
    let (w, f, k) = h u in (w, ap (λ x. and_draw x draw) e ∙ f, Drawn-append is js s u w d k)

abbrev pub AreWords : List ℕ → Type 0
AreWords [] = Unit
AreWords (v ∷ vs) = (v < 2 ^ 32) × AreWords vs

abbrev FieldsAreWords : List Field → Type 0
FieldsAreWords [] = Unit
FieldsAreWords (f ∷ fs) = (f.value < 2 ^ 32) × FieldsAreWords fs

-- A line of registers.
items : (y : ℕ) → List Field → List Item
items y [] = []
items y (f ∷ fs) = label f.x y f.name ∷ number f.at y f.value ∷ items y fs

draw_fields-Draws :
    (y : ℕ) (fs : List Field) (s : Screen)
    → FieldsAreWords fs
    → Draws (items y fs) s (draw_fields y fs s)
unfolding draw_fields Draws items draw_text and_draw
draw_fields-Draws y [] s h = (s, refl, refl)
draw_fields-Draws y (f ∷ fs) s h =
    let (cs, hex, e) = draw_hex-some f.at y f.value (write f.x y f.name s) h.0 in
    let (u, e2, d) = draw_fields-Draws y fs (write f.at y cs (write f.x y f.name s)) h.1 in
    (u, ap (λ o. and_draw o (draw_fields y fs)) e ∙ e2, (cs, hex, d))

-- The registers that the report names are words.
pub record RegsAreWords (r : Regs) : Type 0 where
  pub first : AreWords (r.eax ∷ r.ebx ∷ r.ecx ∷ r.edx ∷ [])
  pub second : AreWords (r.esi ∷ r.edi ∷ r.ebp ∷ r.esp ∷ [])
  pub third : AreWords (r.eip ∷ r.cs ∷ r.eflags ∷ r.err_code ∷ [])

-- The registers on the screen.
abbrev pub register_items : Regs → List Item
register_items r =
    label 8 72 (codes "eax:")
    ∷ number 48 72 r.eax
    ∷ label 108 72 (codes "ebx:")
    ∷ number 148 72 r.ebx
    ∷ label 208 72 (codes "ecx:")
    ∷ number 248 72 r.ecx
    ∷ label 308 72 (codes "edx:")
    ∷ number 348 72 r.edx
    ∷ label 8 88 (codes "esi:")
    ∷ number 48 88 r.esi
    ∷ label 108 88 (codes "edi:")
    ∷ number 148 88 r.edi
    ∷ label 208 88 (codes "ebp:")
    ∷ number 248 88 r.ebp
    ∷ label 308 88 (codes "esp:")
    ∷ number 348 88 r.esp
    ∷ label 8 104 (codes "eip:")
    ∷ number 48 104 r.eip
    ∷ label 108 104 (codes "cs:")
    ∷ number 148 104 r.cs
    ∷ label 208 104 (codes "eflags:")
    ∷ number 268 104 r.eflags
    ∷ label 368 104 (codes "err:")
    ∷ number 408 104 r.err_code
    ∷ []

draw_regs-Draws :
    (r : Regs) (s : Screen) → RegsAreWords r → Draws (register_items r) s (draw_regs 72 r s)
unfolding draw_regs first_line second_line third_line field items
draw_regs-Draws r s h =
    and_draw-Draws (items 72 (first_line r)) (items 88 (second_line r) ++ items 104 (third_line r))
      s _ _ (draw_fields-Draws 72 (first_line r) s h.first)
      (λ s1.
        and_draw-Draws (items 88 (second_line r)) (items 104 (third_line r)) s1 _ _
          (draw_fields-Draws 88 (second_line r) s1 h.second)
          (λ s2. draw_fields-Draws 104 (third_line r) s2 h.third))

draw_frames-FramesDrawn :
    (y : ℕ) (fs : List ℕ) (s : Screen)
    → AreWords fs
    → (u : Screen) × (draw_frames y fs s ≡ some u) × FramesDrawn y fs s u
unfolding draw_frames and_draw
draw_frames-FramesDrawn y [] s h = (s, refl, refl)
draw_frames-FramesDrawn y (f ∷ fs) s h = elim (Bool-cases (slt y (sub32 s.height 20))) [
  | inr below ↦ (s, rw (below, draw_frames) refl, inl (below, refl))
  | inl fits ↦
      let (cs, hex, e) = draw_hex-some 8 y f s h.0 in
      let (u, e2, d) = draw_frames-FramesDrawn (add32 y 16) fs (write 8 y cs s) h.1 in
      (u, rw (fits, e, draw_frames, and_draw) e2, inr (fits, (cs, hex, d)))
]

-- The screen `u` behind the report on the screen `s`: cleared to red, with the titles, the message, the
-- registers and the frames; or, without a framebuffer, as it was.
abbrev pub Shows : (msg : List ℕ) → Regs → (frames : List ℕ) → (s u : Screen) → Type 0
Shows msg r frames s u =
    ((s.enabled ≡ false) × (u ≡ s))
    ⊎ ((s.enabled ≡ true)
        × ((mid : Screen) × Drawn
              (label 8 8 (codes "[neodymium]")
                ∷ label 8 28 (codes "KERNEL PANIC")
                ∷ label 8 48 (cstring msg)
                ∷ register_items r)
              (Framebuffer.clear s (rgb 180 0 0)) mid
            × FramesDrawn 128 frames mid u))

on_screen :
    (b : Bool) (s : Screen) {o p : Option Screen}
    → b ≡ true
    → o ≡ p
    → (if not b then some s else o) ≡ p
on_screen true s on e = e
on_screen false s on e = ground (arith, on)

off_screen :
    (b : Bool) (s : Screen) (o : Option Screen) → b ≡ false → (if not b then some s else o) ≡ some s
off_screen true s o off = ground (arith, off)
off_screen false s o off = refl

pub draw_screen-Shows :
    (msg : List ℕ) (r : Regs) (frames : List ℕ) (s : Screen)
    → RegsAreWords r
    → AreWords frames
    → (u : Screen) × (draw_screen msg r frames s ≡ some u) × Shows msg r frames s u
unfolding draw_screen Draws draw_text and_draw
draw_screen-Shows msg r frames s hr hf = elim (Bool-cases s.enabled) [
  | inr off ↦ (s, off_screen s.enabled s _ off, inl (off, refl))
  | inl on ↦
      let s1 = write 8 8 (codes "[neodymium]") (Framebuffer.clear s (rgb 180 0 0)) in
      let s2 = write 8 48 (cstring msg) (write 8 28 (codes "KERNEL PANIC") s1) in
      let (mid, e, d) = draw_regs-Draws r s2 hr in
      let (u, e2, k) = draw_frames-FramesDrawn 128 frames mid hf in
      (
        u,
        on_screen s.enabled s on (ap (λ o. and_draw o (draw_frames 128 frames)) e ∙ e2),
        inr (on, (mid, d, k)),
      )
]
