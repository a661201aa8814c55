-- ===== src/Vga/Lines.antt =====
-- What the loops of kernel/drivers/vga/vga.c over lines do to each cell.
use frisca_os.Prelude.{
  ℕ, zero, suc, ◌+◌, ◌*◌, ◌≤◌, ◌<◌, ◌≡◌, ◌⊎◌, inl, inr, refl, ap, ◌∙◌, List, arith, dec_lt,
  ℕ_discrete, get_or, set, length, get_or-set_self, get_or-set_ne, length-set,
}
use frisca_os.Vga.{width, entry, get_index, blank_line, blank_lines, copy_line, copy_lines}

pub length-blank_line :
    (n x y color : ℕ) (cells : List ℕ) → length (blank_line n x y color cells) ≡ length cells
unfolding blank_line
length-blank_line zero x y color cells = refl
length-blank_line (suc n) x y color cells =
    length-blank_line n (x + 1) y color (set cells (get_index x y) (entry b' ' color))
    ∙ length-set cells (get_index x y) (entry b' ' color)

pub length-blank_lines :
    (n y color : ℕ) (cells : List ℕ) → length (blank_lines n y color cells) ≡ length cells
unfolding blank_lines
length-blank_lines zero y color cells = refl
length-blank_lines (suc n) y color cells =
    length-blank_lines n (y + 1) color (blank_line width 0 y color cells)
    ∙ length-blank_line width 0 y color cells

length-copy_line : (n x y : ℕ) (cells : List ℕ) → length (copy_line n x y cells) ≡ length cells
unfolding copy_line
length-copy_line zero x y cells = refl
length-copy_line (suc n) x y cells =
    let c = get_or cells (get_index x (y + 1)) 0 in
    length-copy_line n (x + 1) y (set cells (get_index x y) c) ∙ length-set cells (get_index x y) c

pub length-copy_lines : (n y : ℕ) (cells : List ℕ) → length (copy_lines n y cells) ≡ length cells
unfolding copy_lines
length-copy_lines zero y cells = refl
length-copy_lines (suc n) y cells =
    length-copy_lines n (y + 1) (copy_line width 0 y cells) ∙ length-copy_line width 0 y cells

pub blank_line_out :
    (n x y color j : ℕ) (cells : List ℕ)
    → (j < get_index x y) ⊎ (get_index x y + n ≤ j)
    → get_or (blank_line n x y color cells) j 0 ≡ get_or cells j 0
unfolding blank_line
blank_line_out zero x y color j cells h = refl
blank_line_out (suc n) x y color j cells h =
    blank_line_out n (x + 1) y color j (set cells (get_index x y) (entry b' ' color)) (omega arith)
    ∙ get_or-set_ne cells (get_index x y) j (entry b' ' color) 0 (omega arith)

pub blank_line_in :
    (n x y color j : ℕ) (cells : List ℕ)
    → get_index x y ≤ j
    → j < get_index x y + n
    → j < length cells
    → get_or (blank_line n x y color cells) j 0 ≡ entry b' ' color
unfolding blank_line
blank_line_in zero x y color j cells lo hi lt = absurd (omega arith)
blank_line_in (suc n) x y color j cells lo hi lt =
    let at = get_index x y in
    let cells' = set cells at (entry b' ' color) in
    elim (ℕ_discrete at j) [
      | yes e ↦
          blank_line_out n (x + 1) y color j cells' (omega arith)
          ∙ rw e (get_or-set_self cells j (entry b' ' color) 0 lt)
      | no ne ↦
          blank_line_in n (x + 1) y color j cells' (omega arith) (omega arith) (rw length-set lt)
    ]

blank_lines_out :
    (n y color j : ℕ) (cells : List ℕ)
    → j < y * width
    → get_or (blank_lines n y color cells) j 0 ≡ get_or cells j 0
unfolding blank_lines
blank_lines_out zero y color j cells h = refl
blank_lines_out (suc n) y color j cells h =
    blank_lines_out n (y + 1) color j (blank_line width 0 y color cells) (omega arith)
    ∙ blank_line_out width 0 y color j cells (inl (omega arith))

pub blank_lines_in :
    (n y color j : ℕ) (cells : List ℕ)
    → y * width ≤ j
    → j < (y + n) * width
    → j < length cells
    → get_or (blank_lines n y color cells) j 0 ≡ entry b' ' color
unfolding blank_lines
blank_lines_in zero y color j cells lo hi lt = absurd (omega arith)
blank_lines_in (suc n) y color j cells lo hi lt = elim (dec_lt j ((y + 1) * width)) [
  | yes here ↦
      blank_lines_out n (y + 1) color j (blank_line width 0 y color cells) here
      ∙ blank_line_in width 0 y color j cells (omega arith) (omega arith) lt
  | no later ↦
      blank_lines_in n (y + 1) color j (blank_line width 0 y color cells) (omega arith)
        (omega arith) (rw length-blank_line lt)
]

copy_line_out :
    (n x y j : ℕ) (cells : List ℕ)
    → (j < get_index x y) ⊎ (get_index x y + n ≤ j)
    → get_or (copy_line n x y cells) j 0 ≡ get_or cells j 0
unfolding copy_line
copy_line_out zero x y j cells h = refl
copy_line_out (suc n) x y j cells h =
    let c = get_or cells (get_index x (y + 1)) 0 in
    copy_line_out n (x + 1) y j (set cells (get_index x y) c) (omega arith)
    ∙ get_or-set_ne cells (get_index x y) j c 0 (omega arith)

copy_line_in :
    (n x y j : ℕ) (cells : List ℕ)
    → x + n ≤ width
    → get_index x y ≤ j
    → j < get_index x y + n
    → j < length cells
    → get_or (copy_line n x y cells) j 0 ≡ get_or cells (j + width) 0
unfolding copy_line
copy_line_in zero x y j cells fits lo hi lt = absurd (omega arith)
copy_line_in (suc n) x y j cells fits lo hi lt =
    let at = get_index x y in
    let c = get_or cells (get_index x (y + 1)) 0 in
    let cells' = set cells at c in
    elim (ℕ_discrete at j) [
      | yes e ↦
          let below : get_index x (y + 1) ≡ j + width = omega arith in
          let stored : get_or cells' j 0 ≡ c = rw e (get_or-set_self cells j c 0 lt) in
          copy_line_out n (x + 1) y j cells' (omega arith)
          ∙ stored
          ∙ ap (λ t. get_or cells t 0) below
      | no ne ↦
          copy_line_in n (x + 1) y j cells' (omega arith) (omega arith) (omega arith)
            (rw length-set lt)
          ∙ get_or-set_ne cells at (j + width) c 0 (omega arith)
    ]

copy_lines_out :
    (n y j : ℕ) (cells : List ℕ)
    → (j < y * width) ⊎ ((y + n) * width ≤ j)
    → get_or (copy_lines n y cells) j 0 ≡ get_or cells j 0
unfolding copy_lines
copy_lines_out zero y j cells h = refl
copy_lines_out (suc n) y j cells h =
    copy_lines_out n (y + 1) j (copy_line width 0 y cells) (omega arith)
    ∙ copy_line_out width 0 y j cells (omega arith)

pub copy_lines_in :
    (n y j : ℕ) (cells : List ℕ)
    → y * width ≤ j
    → j < (y + n) * width
    → j < length cells
    → get_or (copy_lines n y cells) j 0 ≡ get_or cells (j + width) 0
unfolding copy_lines
copy_lines_in zero y j cells lo hi lt = absurd (omega arith)
copy_lines_in (suc n) y j cells lo hi lt = elim (dec_lt j ((y + 1) * width)) [
  | yes here ↦
      copy_lines_out n (y + 1) j (copy_line width 0 y cells) (inl here)
      ∙ copy_line_in width 0 y j cells (omega arith) (omega arith) (omega arith) lt
  | no later ↦
      copy_lines_in n (y + 1) j (copy_line width 0 y cells) (omega arith) (omega arith)
        (rw length-copy_line lt)
      ∙ copy_line_out width 0 y (j + width) cells (inr (omega arith))
]
