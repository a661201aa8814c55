-- ===== src/Shell/Line.antt =====
-- The line of kernel/shell.c has no terminator inside; Enter where it is empty.
use frisca_os.Prelude.{
  ℕ, zero, suc, ◌+◌, ◌-◌, ◌≤◌, ◌<◌, ◌≡◌, ◌≢◌, refl, true, false, none, Bool-cases, inl, inr, List,
  [], ◌∷◌, ◌++◌, length, take, ltb, arith, ◌==◌, ℕ_discrete,
}
use frisca_os.Prelude.Run.{ok}
use frisca_os.CString.Copy.{NoZero}
use frisca_os.CString.{poke}
use frisca_os.Command.{run_command, run_testdelay}
use frisca_os.Timer.{Timer, sleep}
use frisca_os.Dispatch.{Command, Places, System, say, select, tests}
use frisca_os.Shell.{shell_input, print_prompt, execute_command, execute_line, finish}
use frisca_os.Shell.Edit.{edit, echo}
use frisca_os.Vga.Calls.{Call}

NoZero-append : (l : List ℕ) (c : ℕ) → c ≢ 0 → NoZero l → NoZero (l ++ c ∷ [])
NoZero-append [] c ne nz = (ne, tt)
NoZero-append (d ∷ l) c ne (nd, nz) = (nd, NoZero-append l c ne nz)

NoZero-take : (n : ℕ) (l : List ℕ) → NoZero l → NoZero (take n l)
NoZero-take zero l nz = tt
NoZero-take (suc n) [] nz = tt
NoZero-take (suc n) (d ∷ l) (nd, nz) = (nd, NoZero-take n l nz)

pub NoZero-edit : (c : ℕ) (l : List ℕ) → c ≢ 0 → NoZero l → NoZero (edit c l)
unfolding edit
NoZero-edit c l ne nz = elim (ℕ_discrete c 8) [
  | yes back ↦ let e : (c == 8) ≡ true = ground arith in rw e (NoZero-take (length l - 1) l nz)
  | no other ↦
      let e : (c == 8) ≡ false = ground arith in
      elim (Bool-cases (ltb (length l) 255)) [
        | inl room ↦ rw (e, room) (NoZero-append l c ne nz)
        | inr full ↦ rw (e, full) nz
      ]
]

-- Enter with nothing typed.
pub shell_input_empty :
    (p : Places) (s : System)
    → s.buffer_idx ≡ 0
    → shell_input p 10 s ≡ ok (say "\n" ∷ print_prompt, s)
unfolding shell_input execute_command
shell_input_empty p s e = let empty : (s.buffer_idx == 0) ≡ true = ground arith in rw empty refl

abbrev pub Printable : List ℕ → Type 0
Printable [] = Unit {0}
Printable (c ∷ t) = (32 ≤ c) × (c ≤ 126) × Printable t

pub edit_printable : (c : ℕ) (l : List ℕ) → 32 ≤ c → length l < 255 → edit c l ≡ l ++ c ∷ []
unfolding edit
edit_printable c l lo room =
    let other : (c == 8) ≡ false = ground arith in
    let more : ltb (length l) 255 ≡ true = ground arith in rw (other, more) refl

pub echo_printable : (c : ℕ) (l : List ℕ) → 32 ≤ c → length l < 255 → echo c l ≡ Call.char c ∷ []
unfolding echo
echo_printable c l lo room =
    let other : (c == 8) ≡ false = ground arith in
    let more : ltb (length l) 255 ≡ true = ground arith in rw (other, more) refl

pub Printable-NoZero : (l : List ℕ) → Printable l → NoZero l
Printable-NoZero [] printable = tt
Printable-NoZero (c ∷ l) (lo, hi, printable) = (omega arith, Printable-NoZero l printable)

pub Printable-append : (l t : List ℕ) → Printable l → Printable t → Printable (l ++ t)
Printable-append [] t a b = b
Printable-append (c ∷ l) t (lo, hi, a) b = (lo, hi, Printable-append l t a b)

-- Enter with `testdelay` typed, once `sleep` has returned.
pub shell_input_delay :
    (p : Places) (s : System) (r : List ℕ × Timer)
    → s.buffer_idx ≢ 0
    → select p tests (poke (p.command_buffer + s.buffer_idx) 0 s.files.bytes) ≡ ok Command.testdelay
    → sleep 2000 s.wakes s.timer ≡ ok r
    → s.trap ≡ none
    → shell_input p 10 s
      ≡ ok (
        say "\n" ∷ say "Waiting 2 seconds...\n" ∷ say "Done!\n" ∷ print_prompt,
        record s {
          files = record s.files { bytes = poke (p.command_buffer + s.buffer_idx) 0 s.files.bytes };
          wakes = r.0;
          timer = r.1;
          buffer_idx = 0;
        },
      )
unfolding shell_input execute_command execute_line finish run_command run_testdelay
shell_input_delay p s r some_line command wakes alive =
    let given : (s.buffer_idx == 0) ≡ false = ground (arith, some_line) in
    rw (given, command, wakes, alive) refl
