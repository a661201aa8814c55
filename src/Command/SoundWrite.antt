-- ===== src/Command/SoundWrite.antt =====
-- The `write` command of kernel/shell.c on every line: what it keeps.
use frisca_os.Prelude.{
  ℕ, ◌+◌, ◌<◌, ◌≡◌, ◌⊎◌, inl, inr, refl, ap, ◌∙◌, false, List, [], ◌∷◌, ◌++◌, length, length-append,
  Bool-cases, take, ltb, arith, ◌==◌, ◌&&◌, ℕ_discrete,
}
use mathlib.Core.Path.{subst}
use frisca_os.Prelude.Ascii.{codes}
use frisca_os.Prelude.Run.{Run, ok, ◌>>=◌}
use frisca_os.CString.{ℤ, pos, negsuc}
use frisca_os.CString.Text.{HasText, strlen_lem, poke_ne}
use frisca_os.CString.Copy.{HasText-drop}
use frisca_os.CString.Search.{Lacks, strchr_found, strchr_missing}
use frisca_os.Dispatch.{Places, System, say}
use frisca_os.Heap.{Heap}
use frisca_os.Heap.Layout.{Block, Live}
use frisca_os.Heap.Provider.{heap_allocator}
use frisca_os.Vfs.{Vfs}
use frisca_os.Vfs.Files.{File, Represents, Represents-frame, Outside}
use frisca_os.Vfs.Create.{vfs_create_file-Creation}
use frisca_os.Command.{run_write, write_file, create_file, creation_message}
use frisca_os.Command.Sound.{Sound, Roomy, Keeps, Prefix, Prefix-refl}
use frisca_os.Command.Write.{name_ptr, content_ptr, cut, write_line, name_in_cut, content_in_cut}

-- A line has no space, or a first one.
split_space :
    (l : List ℕ) → Lacks b' ' l ⊎ ((t : List ℕ) × (c : List ℕ) × (l ≡ t ++ b' ' ∷ c) × Lacks b' ' t)
split_space [] = inl tt
split_space (x ∷ l) = elim (ℕ_discrete x b' ') [
  | yes e ↦ inr ([], l, (λ i. (e i ∷ l)), tt)
  | no ne ↦ elim (split_space l) [
    | inl lacks ↦ inl (ne, lacks)
    | inr (t, c, e, lacks) ↦ inr (x ∷ t, c, (λ i. (x ∷ e i)), (ne, lacks))
  ]
]

module _ (p : Places) (room : Roomy p) (s : System) (w : List Block) (fs : List File)
    (sound : Sound p s w fs) where
  -- Other files under the same variables.
  new_files :
      (v : Vfs Heap) (x : List Block) (gs : List File)
      → Represents (heap_allocator p.heap_start) p.table v x gs
      → Sound p (record s { files = v }) x gs
  new_files v x gs r = record {
    table = r;
    memory = sound.memory;
    ticks = sound.ticks;
    counter = sound.counter;
    frequency = sound.frequency;
    alive = sound.alive;
  }

  -- A run of `vfs_create_file` that leaves files, in `create_file`.
  Keeps-with :
      (run : Run (ℤ × Vfs Heap)) (o : ℤ × Vfs Heap) (x : List Block) (gs : List File)
      → run ≡ ok o
      → Represents (heap_allocator p.heap_start) p.table o.1 x gs
      → ((a n : ℕ) → Live p.heap_start w a n → Live p.heap_start x a n)
      → Prefix fs gs
      → Keeps p w fs (run >>= λ r. ok (creation_message p r.0 ∷ [], record s { files = r.1 }))
  Keeps-with run o x gs e r kept grown = record {
    calls = creation_message p o.0 ∷ [];
    after = record s { files = o.1 };
    blocks = x;
    files = gs;
    returns = rw e refl;
    sound = new_files o.1 x gs r;
    kept = kept;
    grown = grown;
  }

  module _ (t c : List ℕ) (there : HasText s.files.bytes p.command_buffer (write_line t c))
      (short : length t + length c < 249) where
    cut-Represents : Represents (heap_allocator p.heap_start) p.table (cut p s t c) w fs
    cut-Represents =
        Represents-frame (heap_allocator p.heap_start) p.table s.files (cut p s t c).bytes w fs
          p.command_buffer 256 room.beside room.below
          (λ x out. poke_ne (p.command_buffer + 6 + length t) 0 x s.files.bytes (omega arith))
          sound.table

    create_file-Keeps :
        Keeps p w fs (
          create_file p (name_ptr p s t c) (content_ptr p s t c) (record s { files = cut p s t c }))
    unfolding create_file
    create_file-Keeps =
        let r' = cut-Represents in
        let v = cut p s t c in
        let o = room.beside in
        let name_outside : Outside (heap_allocator p.heap_start) p.table (p.command_buffer + 6)
            (length t + 1) =
          record { apart = omega (arith, o.apart); below = omega (arith, o.below) } in
        let content_outside : Outside (heap_allocator p.heap_start) p.table
            (p.command_buffer + 6 + length t + 1) (length c + 1) =
          record { apart = omega (arith, o.apart); below = omega (arith, o.below) } in
        let creation =
          vfs_create_file-Creation (heap_allocator p.heap_start) p.fuel p.table
            (p.command_buffer + 6) (p.command_buffer + 6 + length t + 1) v fs t c w r'
            (name_in_cut p s t c there) (content_in_cut p s t c there) name_outside content_outside
            room.below (omega (arith, room.fuel)) (omega (arith, room.fuel))
            (omega (arith, room.fuel)) (omega arith) in
        elim creation [
          | inl (full, e) ↦ Keeps-with _ (negsuc 0, v) w fs e r' (λ x n l. l) (Prefix-refl fs)
          | inr (some_room, inl (k, lt, it, e)) ↦
              Keeps-with _ (negsuc 1, v) w fs e r' (λ x n l. l) (Prefix-refl fs)
          | inr (some_room, inr (absent, inl (_, e))) ↦
              Keeps-with _ (negsuc 2, v) w fs e r' (λ x n l. l) (Prefix-refl fs)
          | inr (some_room, inr (absent, inr a)) ↦
              Keeps-with _ (pos 0, a.after) a.view
                (fs ++ record { name = take 31 t; content = c } ∷ []) a.returns a.represents
                a.others (record { name = take 31 t; content = c } ∷ [], refl)
        ]

    write_file-Keeps :
        Keeps p w fs (write_file p (p.command_buffer + 6) (p.command_buffer + 6 + length t) s)
    unfolding write_file
    write_file-Keeps =
        let v = cut p s t c in
        let named =
          strlen_lem t p.fuel v.bytes (p.command_buffer + 6) (name_in_cut p s t c there)
            (omega (arith, room.fuel)) in
        let filled =
          strlen_lem c p.fuel v.bytes (p.command_buffer + 6 + length t + 1)
            (content_in_cut p s t c there) (omega (arith, room.fuel)) in
        elim (Bool-cases (ltb 0 (length t) && ltb 0 (length c))) [
          | inl given ↦
              let k = create_file-Keeps in
              record {
                calls = k.calls;
                after = k.after;
                blocks = k.blocks;
                files = k.files;
                returns = rw (named, filled, given) k.returns;
                sound = k.sound;
                kept = k.kept;
                grown = k.grown;
              }
          | inr missing ↦ record {
            calls = say "Usage: write <filename> <content>\n" ∷ [];
            after = record s { files = v };
            blocks = w;
            files = fs;
            returns = rw (named, filled, missing) refl;
            sound = new_files v w fs cut-Represents;
            kept = λ x n l. l;
            grown = Prefix-refl fs;
          }
        ]

  -- `write` with any rest of the line.
  pub run_write-Keeps :
      (u : List ℕ)
      → HasText s.files.bytes p.command_buffer (codes "write " ++ u)
      → length u < 250
      → Keeps p w fs (run_write p s)
  unfolding run_write
  run_write-Keeps u there short =
      let args = HasText-drop (codes "write ") u s.files.bytes p.command_buffer there in
      elim (split_space u) [
        | inl lacks ↦
            let none_found =
              strchr_missing u b' ' p.fuel s.files.bytes (p.command_buffer + 6) args lacks
                (omega arith) (omega arith) (omega (arith, room.fuel)) in
            record {
              calls = say "Usage: write <filename> <content>\n" ∷ [];
              after = s;
              blocks = w;
              files = fs;
              returns = rw none_found refl;
              sound = sound;
              kept = λ x n l. l;
              grown = Prefix-refl fs;
            }
        | inr (t, c, e, lacks) ↦
            let sizes : length u ≡ length t + (1 + length c) =
              ap length e ∙ length-append t (b' ' ∷ c) ∙ omega arith in
            let args' = subst (λ l. HasText s.files.bytes (p.command_buffer + 6) l) e args in
            let there' =
              subst (λ l. HasText s.files.bytes p.command_buffer (codes "write " ++ l)) e there in
            let found =
              strchr_found t c b' ' p.fuel s.files.bytes (p.command_buffer + 6) args' lacks
                (omega arith) (omega (arith, room.fuel)) in
            let not_null : (p.command_buffer + 6 + length t == 0) ≡ false = ground arith in
            let k = write_file-Keeps t c there' (omega arith) in
            record {
              calls = k.calls;
              after = k.after;
              blocks = k.blocks;
              files = k.files;
              returns = rw (found, not_null) k.returns;
              sound = k.sound;
              kept = k.kept;
              grown = k.grown;
            }
      ]
