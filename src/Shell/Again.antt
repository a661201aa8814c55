-- ===== src/Shell/Again.antt =====
-- Keys that come while a command of kernel/shell.c runs: the keyboard's handler lets itself be interrupted.
use frisca_os.Prelude.{
  ℕ, ◌+◌, ◌≤◌, ◌<◌, ◌≡◌, ap, sym, ◌∙◌, List, [], ◌∷◌, ◌++◌, length, length-append, arith,
}
use mathlib.Core.List.{append-nil}
use frisca_os.Prelude.Run.{ok, ◌>>=◌}
use frisca_os.CString.Text.{poke_ne}
use frisca_os.Command.{run_command}
use frisca_os.Command.Sound.{Sound, Roomy}
use frisca_os.Dispatch.{Places, System, say, tests}
use frisca_os.Dispatch.Choose.{choose}
use frisca_os.Heap.Layout.{Block}
use frisca_os.Shell.{finish, shell_input}
use frisca_os.Shell.Edit.{Typed}
use frisca_os.Shell.Enter.{terminated, shell_input-choose}
use frisca_os.Shell.Line.{Printable, Printable-NoZero, Printable-append}
use frisca_os.Shell.Returns.{terminated-Sound}
use frisca_os.Shell.Session.{chars, session, session-Edits, Edits}
use frisca_os.Vfs.Files.{File}

module _ (p : Places) (room : Roomy p) (w : List Block) (fs : List File) (s : System)
    (l t : List ℕ) where
  -- In the state in which its command runs the line is typed as before.
  terminated-Typed : Typed p s l → Typed p (terminated p s l) l
  terminated-Typed typed = record {
    count = typed.count;
    bounded = typed.bounded;
    bytes = λ i lt.
        poke_ne (p.command_buffer + s.buffer_idx) 0 (p.command_buffer + i) s.files.bytes
          (omega (arith, typed.count))
        ∙ typed.bytes i lt;
  }

  -- What is typed while a command runs, in the state in which it does, comes behind its line, and
  -- Enter then runs the command of the whole, where both are printable and fit: with nothing
  -- typed, the same again. The places are as in Roomy: the command buffer beside the file table,
  -- both below the heap, the string literals apart from the buffer, and more fuel than the heap
  -- has bytes.
  pub shell_input-again :
      Typed p s l
      → Sound p s w fs
      → 0 < length l
      → Printable l
      → Printable t
      → length l + length t ≤ 255
      → (typed : System) × (session p t (terminated p s l) ≡ ok (chars t, typed))
        × (shell_input p 10 typed ≡ (do
          o ← run_command p (choose tests (l ++ t)) (terminated p typed (l ++ t))
          let done = finish o.1.trap o
          ok (say "\n" ∷ done.0, done.1)))
  unfolding session
  shell_input-again typed sound some_line l_printable t_printable fits =
      let printable = Printable-append l t l_printable t_printable in
      let edits : Edits p room w fs (terminated p s l) l = record {
        typed = terminated-Typed typed;
        sound =
            terminated-Sound p room s w fs l sound typed some_line (Printable-NoZero l l_printable);
      } in
      let (after, run, e) =
        session-Edits p room w fs t l [] (terminated p s l) t_printable fits edits in
      let enter =
        shell_input-choose p after (l ++ t) e.typed (omega (arith, length-append l t))
          (Printable-NoZero (l ++ t) printable) room.literals (omega (arith, room.fuel)) in
      let none_left = ap (λ cs. session p cs (terminated p s l)) (append-nil t) in
      let all = ap (λ calls. ok (calls, after)) (append-nil (chars t)) in
      (after, sym none_left ∙ run ∙ all, enter.1)
