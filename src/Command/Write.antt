-- ===== src/Command/Write.antt =====
-- The `write` command of kernel/shell.c: how its line is cut into a name and a content.
use frisca_os.Prelude.{
  ℕ, ◌+◌, ◌<◌, ◌≡◌, refl, false, true, List, ◌∷◌, ◌++◌, length, ltb, arith, ◌==◌,
}
use frisca_os.Prelude.Ascii.{codes}
use frisca_os.CString.{poke}
use frisca_os.CString.Text.{HasText, strlen_lem, poke_ne}
use frisca_os.CString.Copy.{HasText-drop, HasText-cut, HasText-frame}
use frisca_os.CString.Search.{Lacks, strchr_found}
use frisca_os.Heap.{Heap}
use frisca_os.Vfs.{Vfs}
use frisca_os.Dispatch.{Places, System}
use frisca_os.Command.{create_file, run_write}

-- The line with the name `t` and the content `c`.
abbrev pub write_line : List ℕ → List ℕ → List ℕ
write_line t c = codes "write " ++ (t ++ b' ' ∷ c)

module _ (p : Places) (s : System) (t c : List ℕ) where
  abbrev pub name_ptr : ℕ
  name_ptr = p.command_buffer + 6

  abbrev pub content_ptr : ℕ
  content_ptr = name_ptr + length t + 1

  -- The space behind the name is replaced.
  abbrev pub cut : Vfs Heap
  cut = record s.files { bytes = poke (name_ptr + length t) 0 s.files.bytes }

  module _ (there : HasText s.files.bytes p.command_buffer (write_line t c)) where
    args_there : HasText s.files.bytes name_ptr (t ++ b' ' ∷ c)
    args_there = HasText-drop (codes "write ") (t ++ b' ' ∷ c) s.files.bytes p.command_buffer there

    pub name_in_cut : HasText cut.bytes name_ptr t
    name_in_cut = HasText-cut t (b' ' ∷ c) s.files.bytes name_ptr args_there

    pub content_in_cut : HasText cut.bytes content_ptr c
    content_in_cut =
        HasText-frame c s.files.bytes cut.bytes content_ptr
          (HasText-drop t (b' ' ∷ c) s.files.bytes name_ptr args_there).2
          (λ x lo hi. poke_ne (name_ptr + length t) 0 x s.files.bytes (omega arith))

    -- With `write`, a name without spaces, a space and a content in the buffer, neither empty, the name and
    -- the content are cut apart in place, and `vfs_create_file` is called with them.
    pub run_write-create_file :
        Lacks b' ' t
        → 0 < length t
        → 0 < length c
        → length t < p.fuel
        → length c < p.fuel
        → run_write p s ≡ create_file p name_ptr content_ptr (record s { files = cut })
    unfolding run_write frisca_os.Command.write_file
    run_write-create_file lacks some_name some_content et ec =
        let space =
          strchr_found t c b' ' p.fuel s.files.bytes name_ptr args_there lacks (omega arith) et in
        let not_null : (name_ptr + length t == 0) ≡ false = ground arith in
        let named = strlen_lem t p.fuel cut.bytes name_ptr name_in_cut et in
        let filled = strlen_lem c p.fuel cut.bytes content_ptr content_in_cut ec in
        let given : ltb 0 (length t) ≡ true = ground arith in
        let given' : ltb 0 (length c) ≡ true = ground arith in
        rw (space, not_null, named, filled, given, given') refl
