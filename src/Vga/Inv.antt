-- ===== src/Vga/Inv.antt =====
-- The invariant of kernel/drivers/vga/vga.c: where the cursor is, and what the buffer holds.
use frisca_os.Prelude.{
  ap, sym, ℕ, ◌+◌, ◌*◌, ◌≤◌, ◌<◌, ◌≡◌, ◌⊎◌, inl, inr, refl, ◌∙◌, true, false, arith, dec_lt, get_or,
  length, length-set, ltb, ◌==◌,
}
use mathlib.Core.Path.{subst}
use frisca_os.Prelude.Word.{add32}
use frisca_os.Vga.{
  line_end, column_end, Screen, width, height, entry, get_index, copy_lines, scroll, clear,
  vga_init, next_line, step_back, write_cell, advance,
}
use frisca_os.Vga.Lines.{
  length-blank_line, length-blank_lines, length-copy_lines, blank_line_out, blank_line_in,
  blank_lines_in, copy_lines_in,
}

pub record IsValid (s : Screen) : Type 0 where
  pub cells : length s.buffer ≡ width * height
  pub row_bound : s.row < height
  pub column_bound : s.column < width

-- The linear position of the cursor.
abbrev pub position : Screen → ℕ
position s = get_index s.column s.row

-- The cell `j` of the buffer.
abbrev pub cell : Screen → ℕ → ℕ
cell s j = get_or s.buffer j 0

-- The lines move up by one and the last is blank; the cursor is in the last line.
pub record Scrolled (s t : Screen) : Type 0 where
  pub moved : (j : ℕ) → j < width * 24 → cell t j ≡ cell s (j + width)
  pub blank : (j : ℕ) → width * 24 ≤ j → j < width * 25 → cell t j ≡ entry b' ' s.current_color
  pub row_last : t.row ≡ 24
  pub same_column : t.column ≡ s.column
  pub same_color : t.current_color ≡ s.current_color
  pub same_length : length t.buffer ≡ length s.buffer

-- `vga_scroll` over a full buffer.
pub scroll-Scrolled : (s : Screen) → length s.buffer ≡ width * height → Scrolled s (scroll s)
unfolding scroll
scroll-Scrolled s full =
    let copied = copy_lines 24 0 s.buffer in
    let long = length-copy_lines 24 0 s.buffer in
    record {
      moved = λ j lt.
          blank_line_out width 0 24 s.current_color j copied (inl (omega arith))
          ∙ copy_lines_in 24 0 j s.buffer (omega arith) (omega arith) (omega arith);
      blank = λ j lo hi.
          blank_line_in width 0 24 s.current_color j copied (omega arith) (omega arith)
            (omega arith);
      row_last = refl;
      same_column = refl;
      same_color = refl;
      same_length = length-blank_line width 0 24 s.current_color copied ∙ long;
    }

-- `vga_clear` over a full buffer: every cell is blank and the cursor is in the first.
pub clear_lem :
    (s : Screen)
    → length s.buffer ≡ width * height
    → ((j : ℕ) → j < width * height → cell (clear s) j ≡ entry b' ' s.current_color)
      × (position (clear s) ≡ 0)
      × IsValid (clear s)
unfolding clear
clear_lem s full = (
  λ j lt.
      blank_lines_in height 0 s.current_color j s.buffer (omega arith) (omega arith) (omega arith),
  refl,
  record {
    cells = length-blank_lines height 0 s.current_color s.buffer ∙ full;
    row_bound = omega arith;
    column_bound = omega arith;
  },
)

succ32 : (x : ℕ) → x < 100 → add32 x 1 ≡ x + 1
succ32 x lt = omega arith

line_end-within : (s : Screen) → s.row < 25 → line_end s ≡ s
unfolding line_end
line_end-within s lt = let no_scroll : (s.row == height) ≡ false = ground arith in rw no_scroll refl

line_end-full : (s : Screen) → s.row ≡ 25 → line_end s ≡ scroll s
unfolding line_end
line_end-full s e = let full : (s.row == height) ≡ true = ground arith in rw full refl

column_end-within : (s : Screen) → s.column < 80 → column_end s ≡ s
unfolding column_end
column_end-within s lt = let no_wrap : (s.column == width) ≡ false = ground arith in rw no_wrap refl

column_end-full : (s : Screen) → s.column ≡ 80 → column_end s ≡ next_line s
unfolding column_end
column_end-full s e = let full : (s.column == width) ≡ true = ground arith in rw full refl

-- The next line begins, with a scroll in the last line.
next_line-cases :
    (s : Screen)
    → IsValid s
    → ((s.row < 24) × (next_line s ≡ record s { row = s.row + 1; column = 0 }))
      ⊎ ((s.row ≡ 24) × Scrolled (record s { row = 25; column = 0 }) (next_line s))
unfolding next_line
next_line-cases s v = elim (dec_lt s.row 24) [
  | yes lt ↦ inl (
    lt,
    ap (λ r. line_end (record s { row = r; column = 0 })) (succ32 s.row (omega arith))
        ∙ line_end-within (record s { row = s.row + 1; column = 0 }) (omega arith),
  )
  | no ge ↦
      let last : s.row ≡ 24 = omega (arith, v.row_bound) in
      let t = record s { row = 25; column = 0 } in
      let up : add32 s.row 1 ≡ 25 = omega arith in
      let e : next_line s ≡ scroll t =
        ap (λ r. line_end (record s { row = r; column = 0 })) up ∙ line_end-full t refl in
      inr (last, subst (Scrolled t) (sym e) (scroll-Scrolled t v.cells))
]

pub next_line-IsValid : (s : Screen) → IsValid s → IsValid (next_line s)
next_line-IsValid s v = elim (next_line-cases s v) [
  | inl (lt, e) ↦
      rw e (record { cells = v.cells; row_bound = omega arith; column_bound = omega arith })
  | inr (e, sc) ↦ record {
    cells = sc.same_length ∙ v.cells;
    row_bound = omega (arith, sc.row_last);
    column_bound = omega (arith, sc.same_column);
  }
]

pub write_cell-IsValid : (c : ℕ) (s : Screen) → IsValid s → IsValid (write_cell c s)
write_cell-IsValid c s v = record {
  cells = length-set s.buffer (position s) (entry c s.current_color) ∙ v.cells;
  row_bound = v.row_bound;
  column_bound = v.column_bound;
}

pub step_back-IsValid : (s : Screen) → IsValid s → IsValid (step_back s)
unfolding step_back
step_back-IsValid s v = elim (dec_lt 0 s.column) [
  | yes lt ↦
      let e : ltb 0 s.column ≡ true = ground arith in
      rw e (record {
        cells = v.cells;
        row_bound = v.row_bound;
        column_bound = omega (arith, v.column_bound);
      })
  | no ge ↦
      let e : ltb 0 s.column ≡ false = ground arith in
      elim (dec_lt 0 s.row) [
        | yes lt ↦
            let f : ltb 0 s.row ≡ true = ground arith in
            rw (e, f)
              (record {
                cells = v.cells;
                row_bound = omega (arith, v.row_bound);
                column_bound = omega arith;
              })
        | no le ↦ let f : ltb 0 s.row ≡ false = ground arith in rw (e, f) v
      ]
]

-- The cursor goes on within its line, or the next line begins.
pub advance-cases :
    (s : Screen)
    → IsValid s
    → ((s.column < 79) × (advance s ≡ record s { column = s.column + 1 }))
      ⊎ ((s.column ≡ 79) × (advance s ≡ next_line s))
unfolding advance next_line
advance-cases s v = elim (dec_lt s.column 79) [
  | yes lt ↦ inl (
    lt,
    ap (λ c. column_end (record s { column = c })) (succ32 s.column (omega arith))
        ∙ column_end-within (record s { column = s.column + 1 }) (omega arith),
  )
  | no ge ↦
      let last : s.column ≡ 79 = omega (arith, v.column_bound) in
      let up : add32 s.column 1 ≡ 80 = omega arith in
      inr (
        last,
        ap (λ c. column_end (record s { column = c })) up
            ∙ column_end-full (record s { column = 80 }) refl,
      )
]

-- `vga_init` over a full buffer.
pub vga_init-IsValid : (s : Screen) → length s.buffer ≡ width * height → IsValid (vga_init s)
unfolding vga_init
vga_init-IsValid s full = (clear_lem (record s { current_color = _ }) full).2
