-- ===== src/Shell/Enter.antt =====
-- Enter in kernel/shell.c: the command that was typed is the one that runs.
use frisca_os.Prelude.{ℕ, ◌+◌, ◌≤◌, ◌<◌, ◌≡◌, ap, sym, ◌∙◌, false, List, ◌∷◌, length, arith, ◌==◌}
use frisca_os.Prelude.Run.{ok, ◌>>=◌, bind_assoc}
use frisca_os.CString.{poke}
use frisca_os.CString.Text.{HasText, poke_self, poke_ne}
use frisca_os.CString.Copy.{NoZero, HasText-bytes}
use frisca_os.Heap.{header}
use frisca_os.Heap.Layout.{Block}
use frisca_os.Heap.Provider.{heap_allocator}
use frisca_os.Vfs.Files.{File, Represents, Represents-frame, Outside}
use frisca_os.Dispatch.{Places, LiteralsApart, System, say, tests}
use frisca_os.Dispatch.Choose.{choose, select-choose}
use frisca_os.Command.{run_command}
use frisca_os.Shell.{finish, execute_line, execute_command, shell_input}
use frisca_os.Shell.Edit.{Typed}

module _ (p : Places) (s : System) (l : List ℕ) where
  -- The line with its terminator.
  abbrev pub terminated : System
  terminated = record s {
    files = record s.files { bytes = poke (p.command_buffer + s.buffer_idx) 0 s.files.bytes };
  }

  terminated-HasText : Typed p s l → NoZero l → HasText terminated.files.bytes p.command_buffer l
  terminated-HasText t nz =
      HasText-bytes l terminated.files.bytes p.command_buffer nz
        (λ i lt.
          poke_ne (p.command_buffer + s.buffer_idx) 0 (p.command_buffer + i) s.files.bytes
            (omega (arith, t.count))
          ∙ t.bytes i lt)
        (ap (λ k. poke (p.command_buffer + s.buffer_idx) 0 s.files.bytes (p.command_buffer + k))
            (sym t.count)
          ∙ poke_self (p.command_buffer + s.buffer_idx) 0 s.files.bytes)

  -- Enter with a line typed, not empty and without NUL, where no string literal meets the command
  -- buffer and the fuel is more than 255: the line stands in the buffer as a string, and what runs
  -- is the command of the first test that fits the line, between a newline and the prompt.
  pub shell_input-choose :
      Typed p s l
      → 0 < length l
      → NoZero l
      → LiteralsApart p
      → 255 < p.fuel
      → HasText terminated.files.bytes p.command_buffer l
        × (shell_input p 10 s ≡ (do
          o ← run_command p (choose tests l) terminated
          let done = finish o.1.trap o
          ok (say "\n" ∷ done.0, done.1)))
  unfolding shell_input execute_command execute_line
  shell_input-choose t some_line nz apart enough =
      let there = terminated-HasText t nz in
      let not_empty : (s.buffer_idx == 0) ≡ false = ground (arith, t.count) in
      let found =
        select-choose p l terminated.files.bytes there apart t.bounded (omega (arith, t.bounded))
          tests (omega arith) in
      (
        there,
        rw (not_empty, found)
            (bind_assoc (run_command p (choose tests l) terminated) (λ o. ok (finish o.1.trap o))
              (λ o. ok (say "\n" ∷ o.0, o.1))),
      )

  -- The terminator leaves the table as it is.
  pub terminated-Represents :
      (w : List Block) (fs : List File)
      → Typed p s l
      → Outside (heap_allocator p.heap_start) p.table p.command_buffer 256
      → p.table + 704 ≤ p.heap_start + header
      → Represents (heap_allocator p.heap_start) p.table s.files w fs
      → Represents (heap_allocator p.heap_start) p.table terminated.files w fs
  terminated-Represents w fs t o below =
      Represents-frame (heap_allocator p.heap_start) p.table s.files terminated.files.bytes w fs
        p.command_buffer 256 o below
        (λ x out.
          poke_ne (p.command_buffer + s.buffer_idx) 0 x s.files.bytes
            (omega (arith, t.count, t.bounded)))
