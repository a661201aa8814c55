-- ===== src/Vga.antt =====
-- kernel/drivers/vga/vga.c: the text screen of 80 by 25 cells.
-- The buffer at 0xB8000 is a list of 2000 words of 16 bits. A character is its byte, as the cast to
-- `unsigned char` makes it. A call of `outb` is a pair of port and byte in a list, oldest first. A
-- write outside the buffer, of which there is none under `Vga.Inv.IsValid`, changes nothing here.
pub mod Calls
pub mod Cursor
pub mod Inv
pub mod Lines
pub mod Text
mod Tests
use frisca_os.Prelude.{
  ℕ, zero, suc, ◌+◌, ◌-◌, ◌*◌, ◌/◌, ◌%◌, ◌^◌, List, [], ◌∷◌, ◌++◌, bit_and, bit_or, get_or, set,
  ltb, ◌==◌, if◌then◌else◌,
}
use frisca_os.Prelude.Word.{u8, u16, add32}

-- VGA_WIDTH
abbrev pub width : ℕ
width = 80

-- VGA_HEIGHT
abbrev pub height : ℕ
height = 25

-- VGA_CTRL_PORT
abbrev pub control_port : ℕ
control_port = 0x3d4

-- VGA_DATA_PORT
abbrev pub data_port : ℕ
data_port = 0x3d5

abbrev pub Writes : Type 0
Writes = List (ℕ × ℕ)

pub record Screen : Type 0 where
  pub buffer : List ℕ
  pub row : ℕ
  pub column : ℕ
  pub current_color : ℕ

-- `vga_entry`
pub entry : ℕ → ℕ → ℕ
entry uc color = bit_or (u16 uc) (u16 (color * 2 ^ 8))

-- `vga_entry_color`
entry_color : ℕ → ℕ → ℕ
entry_color fg bg = u8 (bit_or fg (bg * 2 ^ 4))

-- `vga_get_index`
abbrev pub get_index : ℕ → ℕ → ℕ
get_index x y = y * width + x

-- `vga_update_cursor`, the writes that it makes.
pub update_cursor : ℕ → ℕ → Writes
update_cursor x y =
    let pos = u16 (y * width + x) in
    (control_port, 0x0e)
    ∷ (data_port, u8 (bit_and (pos / 2 ^ 8) 0xff))
    ∷ (control_port, 0x0f)
    ∷ (data_port, u8 (bit_and pos 0xff))
    ∷ []

-- The loop that writes spaces in line `y` from `x` on, with `n` rounds left.
pub blank_line : ℕ → ℕ → ℕ → ℕ → List ℕ → List ℕ
blank_line zero x y color cells = cells
blank_line (suc n) x y color cells =
    blank_line n (x + 1) y color (set cells (get_index x y) (entry b' ' color))

-- The outer loop of `vga_clear` from line `y` on.
pub blank_lines : ℕ → ℕ → ℕ → List ℕ → List ℕ
unfolding blank_line
blank_lines zero y color cells = cells
blank_lines (suc n) y color cells = blank_lines n (y + 1) color (blank_line width 0 y color cells)

-- `vga_clear`
pub clear : Screen → Screen
unfolding blank_lines
clear s = record s { buffer = blank_lines height 0 s.current_color s.buffer; row = 0; column = 0 }

-- `vga_set_color`
pub set_color : ℕ → ℕ → Screen → Screen
unfolding entry_color
set_color fg bg s = record s { current_color = entry_color fg bg }

-- `vga_init`: white is 15 and black 0.
pub vga_init : Screen → Screen
unfolding entry_color clear
vga_init s = clear (record s { current_color = entry_color 15 0 })

-- The loops of `vga_scroll` that copy each line from the line below.
pub copy_line : ℕ → ℕ → ℕ → List ℕ → List ℕ
copy_line zero x y cells = cells
copy_line (suc n) x y cells =
    copy_line n (x + 1) y (set cells (get_index x y) (get_or cells (get_index x (y + 1)) 0))

pub copy_lines : ℕ → ℕ → List ℕ → List ℕ
unfolding copy_line
copy_lines zero y cells = cells
copy_lines (suc n) y cells = copy_lines n (y + 1) (copy_line width 0 y cells)

-- `vga_scroll`
pub scroll : Screen → Screen
unfolding copy_lines blank_line
scroll s = record s {
  buffer = blank_line width 0 (height - 1) s.current_color (copy_lines (height - 1) 0 s.buffer);
  row = height - 1;
}

-- if (row == VGA_HEIGHT) vga_scroll();
pub line_end : Screen → Screen
line_end s = if s.row == height then scroll s else s

-- column = 0; if (++row == VGA_HEIGHT) vga_scroll();
pub next_line : Screen → Screen
unfolding line_end
next_line s = line_end (record s { row = add32 s.row 1; column = 0 })

-- The cursor goes back one cell, to the line before at the start of a line.
pub step_back : Screen → Screen
step_back s =
    if ltb 0 s.column
    then record s { column = s.column - 1 }
    else if ltb 0 s.row
    then record s { row = s.row - 1; column = width - 1 }
    else s

abbrev pub write_cell : ℕ → Screen → Screen
write_cell c s = record s {
  buffer = set s.buffer (get_index s.column s.row) (entry c s.current_color);
}

-- if (column == VGA_WIDTH) the next line begins.
pub column_end : Screen → Screen
column_end s = if s.column == width then next_line s else s

-- The cursor goes on one cell.
pub advance : Screen → Screen
unfolding column_end
advance s = column_end (record s { column = add32 s.column 1 })

-- `vga_putchar`
pub putchar : ℕ → Screen → Screen × Writes
unfolding next_line step_back advance update_cursor
putchar c s =
    if c == 10
    then (next_line s, [])
    else (let t = (if c == 8 then write_cell b' ' (step_back s) else advance (write_cell c s)) in
        (t, update_cursor t.column t.row))

-- `vga_write`: the bytes before the terminator.
pub write : List ℕ → Screen → Screen × Writes
unfolding putchar
write [] s = (s, [])
write (c ∷ text) s =
    let (t, sent) = putchar c s in let (u, more) = write text t in (u, sent ++ more)
