-- ===== src/Shell/CatLine.antt =====
-- A line and Enter in kernel/shell.c, and what `cat <name>` prints.
use frisca_os.Prelude.{
  ℕ, ◌≤◌, ◌<◌, ◌≡◌, ◌≢◌, ◌⊎◌, inl, inr, refl, ap, ◌∙◌, List, [], ◌∷◌, ◌++◌, length, arith,
}
use mathlib.Core.List.{append-nil}
use frisca_os.Prelude.Ascii.{codes}
use frisca_os.Prelude.Run.{ok}
use frisca_os.Command.Sound.{Roomy}
use frisca_os.Command.SoundFiles.{content-lt}
use frisca_os.Dispatch.{Places, System, say}
use frisca_os.Heap.Layout.{Block}
use frisca_os.Shell.{print_prompt, shell_input}
use frisca_os.Shell.Enter.{terminated}
use frisca_os.Shell.Line.{Printable, Printable-NoZero, Printable-append}
use frisca_os.Shell.Session.{after_calls, chars, session, session-Edits, Edits}
use frisca_os.Shell.Shown.{cat_line, content_of, shell_input-Shown}
use frisca_os.Vfs.Files.{File}
use frisca_os.Vfs.Find.{name_of}
use frisca_os.Vga.Calls.{Call}

module _ (p : Places) (room : Roomy p) (t : List ℕ) where
  -- What `cat` prints for the name: the first file that has it, or that there is none.
  abbrev pub Found : List File → List Call → Type 0
  Found fs answer =
      ((answer ≡ say "File not found!\n" ∷ []) × ((k : ℕ) → k < length fs → name_of fs k ≢ t))
      ⊎ ((k : ℕ) × (k < length fs)
          × (name_of fs k ≡ t)
          × (answer ≡ Call.text (content_of fs k) ∷ say "\n" ∷ []))

  -- One line with Enter.
  pub session_line :
      (w : List Block) (fs : List File) (l rest : List ℕ) (s : System)
      → Printable l
      → length l ≤ 255
      → Edits p room w fs s []
      → (typed : System) × Edits p room w fs typed l
        × ((calls : List Call) (after : System)
            → shell_input p 10 typed ≡ ok (calls, after)
            → session p (l ++ 10 ∷ rest) s
              ≡ after_calls (chars l) (after_calls calls (session p rest after)))
  unfolding session
  session_line w fs l rest s printable fits e =
      let done = session-Edits p room w fs l [] (10 ∷ rest) s printable (omega arith) e in
      (done.0, done.2, λ calls after enter. done.1 ∙ rw enter refl)

  -- The state after `cat`.
  abbrev prompted : System → System
  prompted s = record (terminated p s (cat_line t)) { buffer_idx = 0 }

  pub cat_session :
      (w : List Block) (fs : List File) (s : System)
      → Edits p room w fs s []
      → Printable t
      → 0 < length t
      → length t ≤ 31
      → (answer : List Call) × (after : System) × (session p (cat_line t ++ 10 ∷ []) s
          ≡ ok (chars (cat_line t) ++ (say "\n" ∷ answer ++ print_prompt), after))
        × Found fs answer
  unfolding session
  cat_session w fs s e printable some_name short =
      let line_printable = Printable-append (codes "cat ") t (omega arith) printable in
      let (typed, e', run) = session_line w fs (cat_line t) [] s line_printable (omega arith) e in
      let end : (answer : List Call) (after : System)
          → shell_input p 10 typed ≡ ok (say "\n" ∷ answer ++ print_prompt, after)
          → session p (cat_line t ++ 10 ∷ []) s
            ≡ ok (chars (cat_line t) ++ (say "\n" ∷ answer ++ print_prompt), after) =
        λ answer after is.
          run (say "\n" ∷ answer ++ print_prompt) after is
          ∙ ap (λ calls. ok (chars (cat_line t) ++ calls, after))
              (append-nil (say "\n" ∷ answer ++ print_prompt)) in
      elim (shell_input-Shown p fs t typed w e'.typed (Printable-NoZero (cat_line t) line_printable)
        e'.sound.table some_name room.beside room.below room.literals (omega (arith, room.fuel))
        (λ k lt. omega (arith, content-lt p room typed w fs e'.sound k lt, room.fuel))
        e'.sound.alive) [
          | inl (is, absent) ↦
              let missing = say "File not found!\n" ∷ [] in
              (missing, prompted typed, end missing (prompted typed) is, inl (refl, absent))
          | inr (k, lt, it, first, is) ↦
              let shown = Call.text (content_of fs k) ∷ say "\n" ∷ [] in
              (shown, prompted typed, end shown (prompted typed) is, inr (k, lt, it, refl))
        ]
