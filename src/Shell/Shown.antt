-- ===== src/Shell/Shown.antt =====
-- `cat <name>` and Enter in kernel/shell.c: the content of the file that has the name.
use mathlib.Core.Path.{subst}
use frisca_os.Prelude.{
  ℕ, ◌+◌, ◌≤◌, ◌<◌, ◌≡◌, ◌≢◌, ◌⊎◌, inl, inr, refl, sym, none, some, false, List, [], ◌∷◌, ◌++◌,
  length, get_or, ◌==◌, arith,
}
use frisca_os.Prelude.Ascii.{codes}
use frisca_os.Prelude.Run.{Run, ok, ◌>>=◌}
use frisca_os.CString.Text.{HasText, strlen_lem, text_at-HasText}
use frisca_os.CString.Copy.{NoZero, HasText-drop}
use frisca_os.Heap.{header}
use frisca_os.Heap.Layout.{Block}
use frisca_os.Heap.Provider.{heap_allocator}
use frisca_os.Vfs.{empty_node}
use frisca_os.Vfs.Files.{File, no_file, Represents, Outside}
use frisca_os.Vfs.Find.{name_of, vfs_read_file-FoundIn}
use frisca_os.Vga.Calls.{Call}
use frisca_os.Dispatch.{Command, Places, LiteralsApart, System, Output, say}
use frisca_os.Dispatch.Choose.{choose}
use frisca_os.Command.{run_command, run_cat, show_file}
use frisca_os.Shell.{print_prompt, finish, shell_input}
use frisca_os.Shell.Edit.{Typed}
use frisca_os.Shell.Enter.{terminated, terminated-Represents, shell_input-choose}

abbrev pub cat_line : List ℕ → List ℕ
cat_line t = codes "cat " ++ t

-- The content of the file `k`.
abbrev pub content_of : List File → ℕ → List ℕ
content_of fs k = (get_or fs k no_file).content

module _ (p : Places) (fs : List File) (t : List ℕ) where
  -- What comes of `cat`: the first file of that name is shown, or there is none.
  abbrev pub Shown : (List Call → Run Output) → Run Output → Type 0
  Shown answer run =
      ((run ≡ answer (say "File not found!\n" ∷ [])) × ((k : ℕ) → k < length fs → name_of fs k ≢ t))
      ⊎ ((k : ℕ) × (k < length fs)
          × (name_of fs k ≡ t)
          × ((j : ℕ) → j < k → name_of fs j ≢ t)
          × (run ≡ answer (Call.text (content_of fs k) ∷ say "\n" ∷ [])))

  -- Nothing changes but the line that is typed.
  abbrev pub prompts : System → List Call → Run Output
  prompts s calls = ok (say "\n" ∷ calls ++ print_prompt, record s { buffer_idx = 0 })

  module _ (s : System) (w : List Block)
      (there : HasText s.files.bytes p.command_buffer (cat_line t))
      (r : Represents (heap_allocator p.heap_start) p.table s.files w fs) (some_name : 0 < length t)
      (enough : length t < p.fuel) (enough_names : 32 ≤ p.fuel)
      (enough_contents : (k : ℕ) → k < length fs → length (content_of fs k) < p.fuel) where
    name_there : HasText s.files.bytes (p.command_buffer + 4) t
    name_there = HasText-drop (codes "cat ") t s.files.bytes p.command_buffer there

    show_file_lem :
        (k : ℕ)
        → k < length fs
        → show_file p (some k) s ≡ ok (Call.text (content_of fs k) ∷ say "\n" ∷ [], s)
    unfolding show_file
    show_file_lem k lt =
        let f = r.files k lt in
        let bounds =
          (heap_allocator p.heap_start).in_bounds s.files.heap w
            (get_or s.files.nodes k empty_node).buffer f.got r.heap f.in_use in
        let not_null : ((get_or s.files.nodes k empty_node).buffer == 0) ≡ false =
          ground (arith, bounds.0) in
        rw
          (
            not_null,
            text_at-HasText (content_of fs k) p.fuel s.files.bytes
                (get_or s.files.nodes k empty_node).buffer f.content (enough_contents k lt),
          )
          refl

    run_cat-Shown : Shown (λ calls. ok (calls, s)) (run_cat p s)
    unfolding run_cat show_file
    run_cat-Shown =
        let measured = strlen_lem t p.fuel s.files.bytes (p.command_buffer + 4) name_there enough in
        let given : (length t == 0) ≡ false = ground arith in
        elim (vfs_read_file-FoundIn (heap_allocator p.heap_start) p.fuel p.table
          (p.command_buffer + 4) s.files w fs t r name_there enough_names) [
            | inl (e, absent) ↦
                inl (rw (measured, given, e) refl, λ k lt. absent k (omega arith) (omega arith))
            | inr (k, e, lo, hi, it, first) ↦ inr (
              k,
              omega arith,
              it,
              λ j lt. first j (omega arith) (omega arith),
              rw (measured, given, e) (show_file_lem k (omega arith)),
            )
          ]

    run_command-Shown :
        s.trap ≡ none
        → Shown (prompts s) (do
          o ← run_command p Command.cat s
          let done = finish o.1.trap o
          ok (say "\n" ∷ done.0, done.1))
    unfolding run_command finish
    run_command-Shown alive = elim run_cat-Shown [
      | inl (e, absent) ↦ inl (rw (e, alive) refl, absent)
      | inr (k, lt, it, first, e) ↦ inr (k, lt, it, first, rw (e, alive) refl)
    ]

  -- Enter with the line cat <name> typed, where the name is not empty, over a table that holds
  -- files whose contents are shorter than the fuel, with the command buffer beside the file table,
  -- both below the heap, the string literals apart from the buffer, and more fuel than 255, and no
  -- exception so far: the content of the first file with that name is printed, or that there is
  -- none, and the new prompt; the line is empty again, and nothing else changes but that it is
  -- terminated in the buffer.
  pub shell_input-Shown :
      (s : System) (w : List Block)
      → Typed p s (cat_line t)
      → NoZero (cat_line t)
      → Represents (heap_allocator p.heap_start) p.table s.files w fs
      → 0 < length t
      → Outside (heap_allocator p.heap_start) p.table p.command_buffer 256
      → p.table + 704 ≤ p.heap_start + header
      → LiteralsApart p
      → 255 < p.fuel
      → ((k : ℕ) → k < length fs → length (content_of fs k) < p.fuel)
      → s.trap ≡ none
      → Shown (prompts (terminated p s (cat_line t))) (shell_input p 10 s)
  unfolding choose
  shell_input-Shown s w typed nz r some_name o below literals enough contents alive =
      let enter = shell_input-choose p s (cat_line t) typed (omega arith) nz literals enough in
      let r' = terminated-Represents p s (cat_line t) w fs typed o below r in
      subst (Shown (prompts (terminated p s (cat_line t)))) (sym enter.1) (
        run_command-Shown (terminated p s (cat_line t)) w enter.0 r' some_name
          (omega (arith, typed.bounded)) (omega arith) contents alive)
