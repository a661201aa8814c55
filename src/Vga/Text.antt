-- ===== src/Vga/Text.antt =====
-- What text written by kernel/drivers/vga/vga.c leaves on the screen.
use frisca_os.Prelude.{
  ℕ, zero, suc, ◌+◌, ◌≤◌, ◌<◌, ◌≡◌, ◌≢◌, ◌⊎◌, inl, inr, refl, ap, sym, ◌∙◌, false, List, [], ◌∷◌,
  arith, ◌*◌, ◌^◌, bit_or, get_or, length, get_or-set_self, get_or-set_ne, ◌==◌, ℕ_discrete,
}
use mathlib.Core.Path.{subst}
use frisca_os.Prelude.Bits.{bit_at-bit_or, bit_or_fields, bit_or-lt, eq_of_bits}
use frisca_os.Prelude.Word.{u16}
use frisca_os.Vga.{
  Screen, width, entry, get_index, next_line, step_back, write_cell, advance, putchar, write,
}
use frisca_os.Vga.Inv.{
  IsValid, position, cell, next_line-IsValid, write_cell-IsValid, step_back-IsValid, advance-cases,
}

-- What each kind of byte does.
putchar-newline : (s : Screen) → (putchar 10 s).0 ≡ next_line s
unfolding putchar
putchar-newline s = refl

putchar-backspace : (s : Screen) → (putchar 8 s).0 ≡ write_cell b' ' (step_back s)
unfolding putchar
putchar-backspace s = refl

putchar-plain : (c : ℕ) (s : Screen) → c ≢ 10 → c ≢ 8 → (putchar c s).0 ≡ advance (write_cell c s)
unfolding putchar
putchar-plain c s n b =
    let f : (c == 10) ≡ false = ground arith in
    let g : (c == 8) ≡ false = ground arith in rw (f, g) refl

advance-IsValid : (s : Screen) → IsValid s → IsValid (advance s)
advance-IsValid s v = elim (advance-cases s v) [
  | inl (lt, e) ↦
      subst IsValid (sym e)
        (record { cells = v.cells; row_bound = v.row_bound; column_bound = omega arith })
  | inr (last, e) ↦ subst IsValid (sym e) (next_line-IsValid s v)
]

-- Every byte that is written keeps the cursor on the screen and the buffer as long as it is.
pub putchar-IsValid : (c : ℕ) (s : Screen) → IsValid s → IsValid (putchar c s).0
putchar-IsValid c s v = elim (ℕ_discrete c 10) [
  | yes e ↦ rw e (subst IsValid (sym (putchar-newline s)) (next_line-IsValid s v))
  | no n ↦ elim (ℕ_discrete c 8) [
    | yes e ↦ rw e (
        subst IsValid (sym (putchar-backspace s))
          (write_cell-IsValid b' ' (step_back s) (step_back-IsValid s v)))
    | no b ↦
        subst IsValid (sym (putchar-plain c s n b))
          (advance-IsValid (write_cell c s) (write_cell-IsValid c s v))
  ]
]

pub write-IsValid : (text : List ℕ) (s : Screen) → IsValid s → IsValid (write text s).0
unfolding write
write-IsValid [] s v = v
write-IsValid (c ∷ text) s v = write-IsValid text (putchar c s).0 (putchar-IsValid c s v)

-- A cell holds the byte in its low half and the color in its high half.
entry_lem : (c color : ℕ) → c < 256 → color < 256 → entry c color ≡ color * 256 + c
unfolding entry
entry_lem c color byte short =
    let low : u16 c ≡ c = omega arith in
    let high : u16 (color * 2 ^ 8) ≡ color * 2 ^ 8 = omega arith in
    ap (bit_or (u16 c)) high
    ∙ ap (λ w. bit_or w (color * 2 ^ 8)) low
    ∙ eq_of_bits 16 (bit_or c (color * 2 ^ 8)) (bit_or (color * 2 ^ 8) c)
        (bit_or-lt 16 c (color * 2 ^ 8) (omega arith) (omega arith))
        (bit_or-lt 16 (color * 2 ^ 8) c (omega arith) (omega arith))
        (λ j lt.
          omega (arith, bit_at-bit_or c (color * 2 ^ 8) j, bit_at-bit_or (color * 2 ^ 8) c j))
    ∙ bit_or_fields 8 color c byte

-- Bytes, of which none moves the cursor but by one cell.
abbrev Plain : List ℕ → Type 0
Plain [] = Unit {0}
Plain (c ∷ text) = (c < 256) × (c ≢ 10) × (c ≢ 8) × Plain text

-- The text stands in the buffer from the cursor on, each byte in the low half of a cell with the
-- current color in the high half, and nothing else changed.
pub record Shown (text : List ℕ) (s t : Screen) : Type 0 where
  pub text_there :
      (i : ℕ) → i < length text → cell t (position s + i) ≡ s.current_color * 256 + get_or text i 0
  pub rest_kept : (j : ℕ) → (j < position s) ⊎ (position s + length text ≤ j) → cell t j ≡ cell s j
  pub moved : t.column ≡ s.column + length text
  pub same_row : t.row ≡ s.row
  pub same_color : t.current_color ≡ s.current_color

-- A byte within a line.
putchar_within :
    (c : ℕ) (s : Screen)
    → IsValid s
    → c ≢ 10
    → c ≢ 8
    → s.column < 79
    → (putchar c s).0 ≡ record (write_cell c s) { column = s.column + 1 }
putchar_within c s v n b lt = elim (advance-cases (write_cell c s) (write_cell-IsValid c s v)) [
  | inl (_, e) ↦ putchar-plain c s n b ∙ e
  | inr (last, e) ↦ absurd (omega arith)
]

Shown-text :
    (c : ℕ) (text : List ℕ) (s t : Screen)
    → IsValid s
    → c < 256
    → s.current_color < 256
    → Shown text (record (write_cell c s) { column = s.column + 1 }) t
    → (i : ℕ) → i < suc (length text)
    → cell t (position s + i) ≡ s.current_color * 256 + get_or (c ∷ text) i 0
Shown-text c text s t v byte short r zero lt =
    let here : position s + 0 ≡ position s = omega arith in
    ap (cell t) here
    ∙ r.rest_kept (position s) (omega arith)
    ∙ get_or-set_self s.buffer (position s) (entry c s.current_color) 0
        (omega (arith, v.cells, v.row_bound, v.column_bound))
    ∙ entry_lem c s.current_color byte short
Shown-text c text s t v byte short r (suc i) lt =
    let next : position s + suc i ≡ get_index (s.column + 1) s.row + i = omega arith in
    ap (cell t) next ∙ r.text_there i (omega arith)

Shown-cons :
    (c : ℕ) (text : List ℕ) (s t : Screen)
    → IsValid s
    → c < 256
    → s.current_color < 256
    → Shown text (record (write_cell c s) { column = s.column + 1 }) t
    → Shown (c ∷ text) s t
Shown-cons c text s t v byte short r =
    let at = position s in
    let e = entry c s.current_color in
    record {
      text_there = Shown-text c text s t v byte short r;
      rest_kept =
          λ j out. r.rest_kept j (omega arith) ∙ get_or-set_ne s.buffer at j e 0 (omega arith);
      moved = omega (arith, r.moved);
      same_row = r.same_row;
      same_color = r.same_color;
    }

-- vga_write of bytes without newline and backspace that end before the end of the line, on a valid
-- screen with a color of 8 bits: in the cells from the cursor on stand the bytes, as the low
-- halves, and the current color, as the high halves; no other cell changes, and the cursor is
-- behind the text.
pub write-Shown :
    (text : List ℕ) (s : Screen)
    → IsValid s
    → Plain text
    → s.column + length text < width
    → s.current_color < 256
    → Shown text s (write text s).0
unfolding write
write-Shown [] s v p lt short = record {
  text_there = λ i l. absurd (omega arith);
  rest_kept = λ j out. refl;
  moved = omega arith;
  same_row = refl;
  same_color = refl;
}
write-Shown (c ∷ text) s v (byte, n, b, p) lt short =
    let u = record (write_cell c s) { column = s.column + 1 } in
    let e = putchar_within c s v n b (omega arith) in
    let valid : IsValid u = subst IsValid e (putchar-IsValid c s v) in
    Shown-cons c text s (write text (putchar c s).0).0 v byte short (
      subst (λ w. Shown text u (write text w).0) (sym e)
        (write-Shown text u valid p (omega arith) short))
