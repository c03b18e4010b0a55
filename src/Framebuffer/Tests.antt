-- ===== src/Framebuffer/Tests.antt =====
-- A screen of four by two pixels at address 4096.
use neodymium.Base.{◌+◌, ◌-◌, ◌≡◌, refl, arith, true, ◌==◌, leb, ltb, ◌&&◌, if◌then◌else◌}
use neodymium.Framebuffer.{Screen, putpixel, fillrect, drawchar, glyph_color}
use neodymium.Framebuffer.Pixels.{IsFitted}
use neodymium.Framebuffer.Shapes.{shows, fillrect-shows, putpixel-shows}
use neodymium.Framebuffer.Glyph.{has_dot, drawchar-shows}

abbrev tiny : Screen
tiny = record {
  memory = λ a. 0;
  ptr = 4096;
  width = 4;
  height = 2;
  pitch = 16;
  bpp = 32;
  enabled = true;
}

tiny-IsFitted : IsFitted tiny
tiny-IsFitted = record {
  deep = refl;
  wide = omega arith;
  inside = omega arith;
  signed = (omega arith, omega arith);
}

putpixel-shows_example :
    shows (putpixel tiny 3 1 0xFF00FF00) 3 1
    ≡ (if (3 == 3) && (1 == 1) then 0xFF00FF00 else shows tiny 3 1)
putpixel-shows_example =
    putpixel-shows tiny 3 1 0xFF00FF00 3 1 tiny-IsFitted refl (omega arith) (omega arith)
      (omega arith)

-- A rectangle that is cut at the right border.
fillrect-shows_example :
    shows (fillrect tiny 2 1 5 5 7) 3 1
    ≡ (if leb 1 1 && ltb 1 (1 + 5) && (leb 2 3 && ltb 3 (2 + 5)) then 7 else shows tiny 3 1)
fillrect-shows_example =
    fillrect-shows tiny 2 1 5 5 7 3 1 tiny-IsFitted refl (omega arith) (omega arith) (omega arith)
      (omega arith) (omega arith)

-- A rectangle that starts at column -1 writes in front of the screen's memory.
fillrect_left : (fillrect tiny 0xFFFFFFFF 0 2 1 7).memory 4092 ≡ 7
unfolding fillrect neodymium.Framebuffer.put_at neodymium.Framebuffer.store32
    neodymium.Framebuffer.rounds
fillrect_left = refl

-- The right half of an "A" beside the screen.
drawchar-shows_example : shows (drawchar tiny 2 0 0x41 7 9) 3 1 ≡ (
    if (leb 2 3 && ltb 3 (2 + 8)) && (leb 0 1 && ltb 1 (0 + 8))
    then (if has_dot 0x41 (1 - 0) (3 - 2) then 7 else 9)
    else shows tiny 3 1)
drawchar-shows_example =
    drawchar-shows tiny 2 0 0x41 7 9 3 1 tiny-IsFitted refl (omega arith) (omega arith)
      (omega arith) (omega arith) (omega arith) (omega arith) (omega arith) (omega arith)
