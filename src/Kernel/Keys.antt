-- ===== src/Kernel/Keys.antt =====
-- Every line of printable text can be typed on the keyboard.
use frisca_os.Prelude.{
  ℕ, ◌+◌, ◌≤◌, ◌<◌, ◌≡◌, sym, ◌∙◌, Bool, some, List, [], ◌∷◌, ◌++◌, length, length-append, arith,
}
use mathlib.Core.Option.{some-injective}
use mathlib.Core.List.{append_assoc, append-nil}
use frisca_os.Keyboard.{handle_interrupt}
use frisca_os.Keyboard.Chars.{shift_key, handle_interrupt-shift_key, handle_interrupt_types}
use frisca_os.Shell.Line.{Printable, edit_printable}
use frisca_os.Kernel.Typing.{typed_line, line_after, NoEnter}

-- A history of keys without Enter that types the text.
abbrev pub Types : List ℕ → List ℕ → Bool → Type 0
Types t l shift = (ss : List ℕ) × NoEnter ss shift × (line_after ss shift l ≡ l ++ t)

-- A key in the right shift state.
Types-cons :
    (s c : ℕ) (wanted shift : Bool) (t l : List ℕ)
    → handle_interrupt s wanted ≡ (some c, wanted)
    → 32 ≤ c
    → length l < 255
    → Types t (l ++ c ∷ []) wanted
    → Types (c ∷ t) l shift
unfolding line_after typed_line
Types-cons s c wanted shift t l types lo room (ss, no_enter, is) =
    let first = handle_interrupt-shift_key wanted shift in
    (
      shift_key wanted ∷ s ∷ ss,
      rw (first, types) (λ e. absurd (cc), (λ e. omega (arith, some-injective c 10 e), no_enter)),
      rw (first, types, edit_printable c l lo room) (is ∙ append_assoc l (c ∷ []) t),
    )

-- Whatever the shift state is, every printable text that fits behind the line in 255 bytes can be typed.
pub line_after-typeable :
    (t l : List ℕ) (shift : Bool) → Printable t → length l + length t ≤ 255 → Types t l shift
unfolding line_after
line_after-typeable [] l shift printable fits = ([], tt, sym (append-nil l))
line_after-typeable (c ∷ t) l shift (lo, hi, printable) fits =
    let key = handle_interrupt_types c lo hi in
    Types-cons key.0 c key.1 shift t l key.3 lo (omega arith) (
      line_after-typeable t (l ++ c ∷ []) key.1 printable (omega (arith, length-append l (c ∷ []))))
