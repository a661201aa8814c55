-- ===== src/Command/SoundFiles.antt =====
-- The commands of kernel/shell.c that read the file table or the line, on every line: what they keep.
use frisca_os.Prelude.{
  ℕ, ◌+◌, ◌<◌, ◌≡◌, inl, inr, refl, sym, true, false, some, List, [], ◌∷◌, ◌++◌, length, get_or,
  arith, ◌==◌, dec_lt,
}
use mathlib.Core.Path.{subst}
use frisca_os.Prelude.Ascii.{codes}
use frisca_os.Prelude.Run.{ok, ◌>>=◌}
use frisca_os.CString.Text.{HasText, strlen_lem, text_at-HasText}
use frisca_os.CString.Copy.{HasText-drop}
use frisca_os.Dispatch.{Places, System, say}
use frisca_os.Heap.Layout.{Block}
use frisca_os.Heap.Layout.FirstFit.{Live_bounds}
use frisca_os.Heap.Provider.{heap_allocator}
use frisca_os.Vfs.{empty_node, vfs_list_files}
use frisca_os.Vfs.Files.{File, no_file}
use frisca_os.Vfs.Listing.{vfs_list_files-Rows}
use frisca_os.Vfs.Find.{vfs_read_file-FoundIn}
use frisca_os.Vga.Calls.{Call}
use frisca_os.Command.{run_unknown, run_cat, show_file}
use frisca_os.Command.Sound.{Sound, Roomy, Keeps, Prefix-refl, stays}

module _ (p : Places) (room : Roomy p) (s : System) (w : List Block) (fs : List File)
    (sound : Sound p s w fs) where
  -- A content fits in the heap.
  pub content-lt : (k : ℕ) → k < length fs → length (get_or fs k no_file).content < 16384
  content-lt k lt =
      let f = sound.table.files k lt in
      let bounds = Live_bounds p.heap_start w _ f.got f.in_use in
      omega (arith, bounds, f.fits, sound.table.heap.0.filled)

  pub run_ls-Keeps : Keeps p w fs (do
    calls ← vfs_list_files (heap_allocator p.heap_start) p.fuel p.table s.files
    ok (calls, s))
  run_ls-Keeps =
      elim (vfs_list_files-Rows (heap_allocator p.heap_start) p.fuel p.table s.files w fs
        sound.table (omega (arith, room.fuel)) (λ k lt. omega (arith, content-lt k lt))) [
          | inl (empty, e) ↦
              subst (λ r. Keeps p w fs (r >>= λ calls. ok (calls, s))) (sym e)
                (stays p room s w fs sound)
          | inr (some_left, (rows, e, _)) ↦
              subst (λ r. Keeps p w fs (r >>= λ calls. ok (calls, s))) (sym e)
                (stays p room s w fs sound)
        ]

  pub run_unknown-Keeps :
      (l : List ℕ)
      → HasText s.files.bytes p.command_buffer l
      → length l < p.fuel
      → Keeps p w fs (run_unknown p s)
  unfolding run_unknown
  run_unknown-Keeps l there enough =
      let read = text_at-HasText l p.fuel s.files.bytes p.command_buffer there enough in
      subst
        (λ r. Keeps p w fs (
          r >>= λ t. ok (
            Call.color 12 0
                ∷ say "Unknown command: "
                ∷ Call.text t
                ∷ say "\nType 'help' for a list of commands.\n"
                ∷ Call.color 15 0
                ∷ [],
            s,
          )))
        (sym read) (stays p room s w fs sound)

  show_file-Keeps : (k : ℕ) → k < length fs → Keeps p w fs (show_file p (some k) s)
  unfolding show_file
  show_file-Keeps k lt =
      let f = sound.table.files k lt in
      let bounds = Live_bounds p.heap_start w _ f.got f.in_use in
      let content = (get_or fs k no_file).content in
      let at = (get_or s.files.nodes k empty_node).buffer in
      let not_null : (at == 0) ≡ false = ground (arith, bounds.0) in
      let read =
        text_at-HasText content p.fuel s.files.bytes at f.content
          (omega (arith, content-lt k lt, room.fuel)) in
      record {
        calls = Call.text content ∷ say "\n" ∷ [];
        after = s;
        blocks = w;
        files = fs;
        returns = rw (not_null, read) refl;
        sound = sound;
        kept = λ x n l. l;
        grown = Prefix-refl fs;
      }

  pub run_cat-Keeps :
      (t : List ℕ)
      → HasText s.files.bytes p.command_buffer (codes "cat " ++ t)
      → length t < 256
      → Keeps p w fs (run_cat p s)
  unfolding run_cat show_file
  run_cat-Keeps t there short =
      let name_there = HasText-drop (codes "cat ") t s.files.bytes p.command_buffer there in
      let measured =
        strlen_lem t p.fuel s.files.bytes (p.command_buffer + 4) name_there
          (omega (arith, room.fuel)) in
      elim (dec_lt 0 (length t)) [
        | no none_left ↦
            let empty : (length t == 0) ≡ true = ground arith in
            record {
              calls = say "Usage: cat <filename>\n" ∷ [];
              after = s;
              blocks = w;
              files = fs;
              returns = rw (measured, empty) refl;
              sound = sound;
              kept = λ x n l. l;
              grown = Prefix-refl fs;
            }
        | yes some_name ↦
            let given : (length t == 0) ≡ false = ground arith in
            elim (vfs_read_file-FoundIn (heap_allocator p.heap_start) p.fuel p.table
              (p.command_buffer + 4) s.files w fs t sound.table name_there
              (omega (arith, room.fuel))) [
                | inl (e, absent) ↦ record {
                  calls = say "File not found!\n" ∷ [];
                  after = s;
                  blocks = w;
                  files = fs;
                  returns = rw (measured, given, e) refl;
                  sound = sound;
                  kept = λ x n l. l;
                  grown = Prefix-refl fs;
                }
                | inr (k, e, lo, hi, it, first) ↦
                    let shown = show_file-Keeps k (omega arith) in
                    record {
                      calls = shown.calls;
                      after = shown.after;
                      blocks = shown.blocks;
                      files = shown.files;
                      returns = rw (measured, given, e) shown.returns;
                      sound = shown.sound;
                      kept = shown.kept;
                      grown = shown.grown;
                    }
              ]
      ]
