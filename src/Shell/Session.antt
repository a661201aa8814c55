-- ===== src/Shell/Session.antt =====
-- Characters that kernel/shell.c gets one after the other: a file is written and read back.
use frisca_os.Prelude.{
  ℕ, ◌+◌, ◌≤◌, ◌<◌, ◌≡◌, refl, ap, sym, ◌∙◌, List, [], ◌∷◌, ◌++◌, length, length-append, arith,
}
use mathlib.Core.Path.{subst}
use mathlib.Core.List.{append_assoc, append-nil}
use frisca_os.Prelude.Run.{Run, ok, fault, out_of_fuel, ◌>>=◌}
use frisca_os.Command.Sound.{Sound, Roomy}
use frisca_os.Dispatch.{Places, System, Output}
use frisca_os.Heap.Layout.{Block}
use frisca_os.Heap.Provider.{heap_allocator}
use frisca_os.Shell.{shell_input}
use frisca_os.Shell.Edit.{Typed, shell_input-Edited}
use frisca_os.Shell.Line.{Printable, edit_printable, echo_printable}
use frisca_os.Vfs.Files.{File, Represents-frame}
use frisca_os.Vga.Calls.{Call}

-- What was printed before is put in front.
abbrev pub after_calls : List Call → Run Output → Run Output
after_calls calls run = run >>= λ r. ok (calls ++ r.0, r.1)

after_calls-nil : (run : Run Output) → after_calls [] run ≡ run
after_calls-nil (ok r) = refl
after_calls-nil fault = refl
after_calls-nil out_of_fuel = refl

after_calls-append :
    (a b : List Call) (run : Run Output)
    → after_calls a (after_calls b run) ≡ after_calls (a ++ b) run
after_calls-append a b (ok r) = ap (λ calls. ok (calls, r.1)) (sym (append_assoc a b r.0))
after_calls-append a b fault = refl
after_calls-append a b out_of_fuel = refl

-- The echo of a line.
abbrev pub chars : List ℕ → List Call
chars [] = []
chars (c ∷ t) = Call.char c ∷ chars t

module _ (p : Places) where
  -- The calls of `shell_input` with these characters, one after the other, and all that they print.
  unfoldable pub session : List ℕ → System → Run Output
  session [] s = ok ([], s)
  session (c ∷ cs) s = do o ← shell_input p c s; after_calls o.0 (session cs o.1)

  module _ (room : Roomy p) (w : List Block) (fs : List File) where
    -- The line is typed, over a state that is sound.
    pub record Edits (s : System) (l : List ℕ) : Type 0 where
      pub typed : Typed p s l
      pub sound : Sound p s w fs

    key-Edits :
        (c : ℕ) (l : List ℕ) (s : System)
        → 32 ≤ c
        → length l < 255
        → Edits s l
        → (after : System) × (shell_input p c s ≡ ok (Call.char c ∷ [], after))
          × Edits after (l ++ c ∷ [])
    key-Edits c l s lo fits e =
        let d = shell_input-Edited p s l e.typed c (omega arith) in
        let after = record s { files = record s.files { bytes = d.memory }; buffer_idx = d.idx } in
        (
          after,
          d.returns ∙ ap (λ calls. ok (calls, after)) (echo_printable c l lo fits),
          record {
            typed = subst (Typed p after) (edit_printable c l lo fits) d.typed;
            sound = record {
              table =
                  Represents-frame (heap_allocator p.heap_start) p.table s.files d.memory w fs
                    p.command_buffer 256 room.beside room.below (λ x out. d.kept x (omega arith))
                    e.sound.table;
              memory = e.sound.memory;
              ticks = e.sound.ticks;
              counter = e.sound.counter;
              frequency = e.sound.frequency;
              alive = e.sound.alive;
            };
          },
        )

    -- Printable text that fits in the line is typed, before whatever follows.
    pub session-Edits :
        (t l rest : List ℕ) (s : System)
        → Printable t
        → length l + length t ≤ 255
        → Edits s l
        → (after : System) × (session (t ++ rest) s ≡ after_calls (chars t) (session rest after))
          × Edits after (l ++ t)
    unfolding session
    session-Edits [] l rest s printable fits e =
        (s, sym (after_calls-nil (session rest s)), subst (Edits s) (sym (append-nil l)) e)
    session-Edits (c ∷ t) l rest s (lo, hi, printable) fits e =
        let key = key-Edits c l s lo (omega arith) e in
        let later =
          session-Edits t (l ++ c ∷ []) rest key.0 printable
            (omega (arith, length-append l (c ∷ []))) key.2 in
        (
          later.0,
          rw (key.1, later.1)
              (after_calls-append (Call.char c ∷ []) (chars t) (session rest later.0)),
          subst (Edits later.0) (append_assoc l (c ∷ []) t) later.2,
        )
