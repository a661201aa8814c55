-- ===== src/Shell/Written.antt =====
-- `write <name> <content>` and Enter in kernel/shell.c: what comes of the file, down to the heap.
use mathlib.Core.Path.{subst}
use frisca_os.Prelude.{
  ℕ, ◌+◌, ◌*◌, ◌/◌, ◌≤◌, ◌<◌, ◌≡◌, ◌≢◌, ◌⊎◌, inl, inr, refl, sym, none, List, [], ◌∷◌, ◌++◌, length,
  length-append, take, arith,
}
use frisca_os.Prelude.Run.{Run, ok, ◌>>=◌}
use frisca_os.CString.Text.{HasText, poke_ne}
use frisca_os.CString.Copy.{NoZero}
use frisca_os.CString.Search.{Lacks}
use frisca_os.Heap.{Heap, header}
use frisca_os.Heap.Layout.{Block, NoFit}
use frisca_os.Heap.Provider.{heap_allocator}
use frisca_os.Vfs.{Vfs}
use frisca_os.Vfs.Files.{File, Represents, Represents-frame, Outside}
use frisca_os.Vfs.Find.{name_of}
use frisca_os.Vfs.Create.{vfs_create_file-Creation}
use frisca_os.Vga.Calls.{Call}
use frisca_os.Dispatch.{Command, Places, LiteralsApart, System, Output, say}
use frisca_os.Dispatch.Choose.{choose}
use frisca_os.Command.{create_file, creation_message, run_command}
use frisca_os.Command.Write.{
  write_line, name_ptr, cut, name_in_cut, content_in_cut, run_write-create_file,
}
use frisca_os.Shell.{print_prompt, finish, shell_input}
use frisca_os.Shell.Edit.{Typed}
use frisca_os.Shell.Enter.{terminated, terminated-Represents, shell_input-choose}

module _ (p : Places) (s : System) (fs : List File) (t c : List ℕ) where
  -- The answer on the screen, and the new prompt, with the table that is left.
  abbrev pub Answers : Call → Vfs Heap → Run Output → Type 0
  Answers message files run =
      run ≡ ok (say "\n" ∷ message ∷ print_prompt, record s { files = files; buffer_idx = 0 })

  abbrev pub Shows : Vfs Heap → List Block → List File → Type 0
  Shows = Represents (heap_allocator p.heap_start) p.table

  -- What comes of `write`.
  abbrev pub Written : List Block → Run Output → Type 0
  Written w run =
      (after : Vfs Heap) × (view : List Block) × ((Answers (say "Error creating file!\n") after run
          × Shows after view fs
          × ((length fs ≡ 16) ⊎ NoFit ((length c + 1 + 3) / 4 * 4) w))
        ⊎ ((Answers (say "Error: File already exists!\n") after run
              × Shows after view fs
              × ((k : ℕ) × (k < length fs) × (name_of fs k ≡ t)))
            ⊎ (Answers (say "File created successfully!\n") after run
                × Shows after view (fs ++ record { name = take 31 t; content = c } ∷ [])
                × (length fs < 16)
                × ((j : ℕ) → j < length fs → name_of fs j ≢ t))))

  module _ (w : List Block) (files : Vfs Heap)
      (there : HasText files.bytes p.command_buffer (write_line t c)) where
    -- The command over a table that holds files.
    run_command-Written :
        Shows files w fs
        → Lacks b' ' t
        → 0 < length t
        → 0 < length c
        → Outside (heap_allocator p.heap_start) p.table p.command_buffer 256
        → p.table + 704 ≤ p.heap_start + header
        → length t + length c < 249
        → 255 < p.fuel
        → s.trap ≡ none
        → Written w (do
          o ← run_command p Command.write (record s { files = files })
          let done = finish o.1.trap o
          ok (say "\n" ∷ done.0, done.1))
    unfolding run_command finish create_file creation_message
    run_command-Written r lacks some_name some_content o below short enough alive =
        let u = record s { files = files } in
        let v = cut p u t c in
        let q = name_ptr p u t c in
        let call =
          run_write-create_file p u t c there lacks some_name some_content (omega arith)
            (omega arith) in
        let name_there = name_in_cut p u t c there in
        let content_there = content_in_cut p u t c there in
        let r' =
          Represents-frame (heap_allocator p.heap_start) p.table files v.bytes w fs p.command_buffer
            256 o below
            (λ x out. poke_ne (p.command_buffer + 6 + length t) 0 x files.bytes (omega arith)) r in
        let name_outside : Outside (heap_allocator p.heap_start) p.table (p.command_buffer + 6)
            (length t + 1) =
          record { apart = omega (arith, o.apart); below = omega (arith, o.below) } in
        let content_outside : Outside (heap_allocator p.heap_start) p.table
            (p.command_buffer + 6 + length t + 1) (length c + 1) =
          record { apart = omega (arith, o.apart); below = omega (arith, o.below) } in
        let creation =
          vfs_create_file-Creation (heap_allocator p.heap_start) p.fuel p.table
            (p.command_buffer + 6) (p.command_buffer + 6 + length t + 1) v fs t c w r' name_there
            content_there name_outside content_outside below (omega arith) (omega arith)
            (omega arith) (omega arith) in
        elim creation [
          | inl (full, e) ↦ (v, w, inl (rw (call, e, alive) refl, r', inl full))
          | inr (room, inl (k, lt, it, e)) ↦
              (v, w, inr (inl (rw (call, e, alive) refl, r', (k, lt, it))))
          | inr (room, inr (absent, inl (full, e))) ↦
              (v, w, inl (rw (call, e, alive) refl, r', inr full))
          | inr (room, inr (absent, inr a)) ↦ (
            a.after,
            a.view,
            inr (inr (rw (call, a.returns, alive) refl, a.represents, room, absent)),
          )
        ]

  -- Enter with the line write <name> <content> typed, where the name has no space and neither is
  -- empty, over a table that holds files, with the command buffer beside the file table, both
  -- below the heap, the string literals apart from the buffer, and more fuel than 255, and no
  -- exception so far: one of three answers and the new prompt are printed, and the line is empty
  -- again. The first is an error, and comes only where there are 16 files or the heap has no room
  -- for the content and its NUL. With it and the second, that a file has the name, the table still
  -- holds the files; with the third, no file had the name, and the file was added behind them,
  -- under at most 31 bytes of its name.
  pub shell_input-Written :
      (w : List Block)
      → Typed p s (write_line t c)
      → NoZero (write_line t c)
      → Shows s.files w fs
      → Lacks b' ' t
      → 0 < length t
      → 0 < length c
      → Outside (heap_allocator p.heap_start) p.table p.command_buffer 256
      → p.table + 704 ≤ p.heap_start + header
      → LiteralsApart p
      → 255 < p.fuel
      → s.trap ≡ none
      → Written w (shell_input p 10 s)
  unfolding choose
  shell_input-Written w typed nz r lacks some_name some_content o below literals enough alive =
      let enter = shell_input-choose p s (write_line t c) typed (omega arith) nz literals enough in
      let fits_line : length t + length c < 249 =
        omega (arith, typed.bounded, length-append t (b' ' ∷ c)) in
      let r' = terminated-Represents p s (write_line t c) w fs typed o below r in
      subst (Written w) (sym enter.1) (
        run_command-Written w (terminated p s (write_line t c)).files enter.0 r' lacks some_name
          some_content o below fits_line enough alive)
