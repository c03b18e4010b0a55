-- ===== src/Vga/Tests.antt =====
-- Runs of the VGA console beside the framebuffer's.
use neodymium.Base.{refl, true, [], ◌∷◌}
use neodymium.Fbcon.Tests.{last_cell, last_cell-IsValid}
use neodymium.Vga.{Vga, vga_entry, write}
use neodymium.Vga.Agree.{Shows, put_string, write-Shows}

abbrev last_cell_vga : Vga
last_cell_vga = record {
  buffer = λ i. vga_entry b' ' 7;
  row = 24;
  column = 79;
  color = 7;
  cursor_port = (0, 0);
}

last_cell-Shows : Shows last_cell last_cell_vga
last_cell-Shows = record {
  cols_eq = refl;
  rows_eq = refl;
  cx_eq = refl;
  cy_eq = refl;
  cells = λ y x hy hx. refl;
}

write-Shows_example :
    Shows
      (put_string true 5 last_cell (b'o' ∷ b'k' ∷ b'\n' ∷ []))
      (write last_cell_vga (b'o' ∷ b'k' ∷ b'\n' ∷ []))
write-Shows_example =
    write-Shows true 5 (b'o' ∷ b'k' ∷ b'\n' ∷ []) last_cell-IsValid last_cell-Shows
