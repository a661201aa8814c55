-- ===== src/Vga/Calls.antt =====
-- Sequences of calls of the functions of kernel/drivers/vga/vga.c, as their callers make them.
use frisca_os.Prelude.{ℕ, List, [], ◌∷◌, ◌++◌}
use frisca_os.Vga.{Screen, Writes, clear, set_color, putchar, write}
use frisca_os.Vga.Inv.{IsValid, clear_lem}
use frisca_os.Vga.Text.{putchar-IsValid, write-IsValid}

pub data Call : Type 0 where
  text : List ℕ → Call
  char : ℕ → Call
  color : ℕ → ℕ → Call
  blank : Call

pub perform : Call → Screen → Screen × Writes
perform (text t) s = write t s
perform (char c) s = putchar c s
perform (color fg bg) s = (set_color fg bg s, [])
perform blank s = (clear s, [])

unfoldable pub perform_all : List Call → Screen → Screen × Writes
unfolding perform
perform_all [] s = (s, [])
perform_all (c ∷ cs) s =
    let (t, sent) = perform c s in let (u, more) = perform_all cs t in (u, sent ++ more)

set_color-IsValid : (fg bg : ℕ) (s : Screen) → IsValid s → IsValid (set_color fg bg s)
unfolding set_color
set_color-IsValid fg bg s v = record {
  cells = v.cells;
  row_bound = v.row_bound;
  column_bound = v.column_bound;
}

perform-IsValid : (c : Call) (s : Screen) → IsValid s → IsValid (perform c s).0
unfolding perform
perform-IsValid (text t) s v = write-IsValid t s v
perform-IsValid (char c) s v = putchar-IsValid c s v
perform-IsValid (color fg bg) s v = set_color-IsValid fg bg s v
perform-IsValid blank s v = (clear_lem s v.cells).2

-- Whatever the callers print, the cursor stays on the screen and the buffer as long as it is.
pub perform_all-IsValid : (cs : List Call) (s : Screen) → IsValid s → IsValid (perform_all cs s).0
unfolding perform_all
perform_all-IsValid [] s v = v
perform_all-IsValid (c ∷ cs) s v = perform_all-IsValid cs (perform c s).0 (perform-IsValid c s v)
