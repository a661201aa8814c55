-- ===== src/Vga/Tests.antt =====
-- Runs of kernel/drivers/vga/vga.c.
use frisca_os.Prelude.{◌≡◌, ℕ, [], ◌∷◌, arith, replicate, length-replicate}
use frisca_os.Vga.{Screen, putchar, write}
use frisca_os.Vga.Inv.{IsValid, position}
use frisca_os.Vga.Text.{Shown, write-Shown}
use frisca_os.Vga.Cursor.{Crtc, out_all, shown_at, putchar-cursor}

-- The cursor in the last cell of the screen.
abbrev full : Screen
full = record { buffer = replicate 2000 0x0f41; row = 24; column = 79; current_color = 0x0f }

full-IsValid : IsValid full
full-IsValid = record {
  cells = length-replicate {A = ℕ} 2000 0x0f41;
  row_bound = omega arith;
  column_bound = omega arith;
}

abbrev middle : Screen
middle = record full { row = 3; column = 5 }

middle-IsValid : IsValid middle
middle-IsValid = record {
  cells = length-replicate {A = ℕ} 2000 0x0f41;
  row_bound = omega arith;
  column_bound = omega arith;
}

write-Shown_example : Shown (b'o' ∷ b'k' ∷ []) middle (write (b'o' ∷ b'k' ∷ []) middle).0
write-Shown_example =
    write-Shown (b'o' ∷ b'k' ∷ []) middle middle-IsValid (omega arith) (omega arith) (omega arith)

abbrev crtc : Crtc
crtc = record { index = 7; high = 1; low = 2 }

putchar-cursor_example :
    shown_at (out_all (putchar b'x' full).1 crtc) ≡ position (putchar b'x' full).0
putchar-cursor_example = putchar-cursor b'x' full crtc full-IsValid (omega arith)
