-- ===== src/Vfs/LongName.antt =====
-- A name of 32 bytes or more in kernel/fs/vfs.c: it is stored cut off, and compared in full.
use frisca_os.Prelude.{ℕ, ◌+◌, ◌≤◌, ◌≡◌, ◌⊎◌, List, [], ◌∷◌, ◌++◌, length, take}
use frisca_os.Prelude.Run.{ok}
use frisca_os.Allocator.{Allocator}
use frisca_os.CString.{negsuc}
use frisca_os.Vfs.{Vfs, vfs_create_file}
use frisca_os.Vfs.Files.{File}
use frisca_os.Vfs.Create.{Added}

module _ (A : Allocator) (fuel table name content : ℕ) (t c : List ℕ) (long : 32 ≤ length t) where
  module _ (v v' : Vfs A.State) (w : A.View) (fs : List File) where
    abbrev pub with_new : List File
    with_new = fs ++ record { name = take 31 t; content = c } ∷ []

    -- What comes of the second creation: the table is full, or there is no memory, or the file is there
    -- twice; it is never reported as existing.
    abbrev pub Again : A.View → Type 0
    Again x =
        ((length with_new ≡ 16)
          × (vfs_create_file A fuel table name content v' ≡ ok (negsuc 0, v')))
        ⊎ ((A.Full (length c + 1) x
              × (vfs_create_file A fuel table name content v' ≡ ok (negsuc 2, v')))
            ⊎ Added A fuel table name content v' with_new t c x
                (vfs_create_file A fuel table name content v'))
