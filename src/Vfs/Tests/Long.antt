-- ===== src/Vfs/Tests/Long.antt =====
-- A name of 32 bytes in kernel/fs/vfs.c, over a fresh heap at 1 MB.
use frisca_os.Prelude.{ℕ, ◌-◌, List, [], ◌∷◌, get_or, leb, replicate, if◌then◌else◌}
use frisca_os.Prelude.Run.{result_or}
use frisca_os.CString.{pos}
use frisca_os.Heap.{Heap}
use frisca_os.Heap.Provider.{heap_allocator}
use frisca_os.Vfs.{Vfs, empty_node, vfs_create_file}
use frisca_os.Vfs.Tests.{fresh}

abbrev long_name : List ℕ
long_name = replicate 32 b'a'

-- The name at 0x1000, and "hi" at 0x1100.
abbrev start : Vfs Heap
start = record {
  bytes = λ a.
      if leb 0x1100 a
      then get_or (b'h' ∷ b'i' ∷ 0 ∷ []) (a - 0x1100) 0
      else get_or long_name (a - 0x1000) 0;
  nodes = replicate 16 empty_node;
  file_count = 0;
  heap = fresh;
}

abbrev created : Vfs Heap
created =
    (result_or (pos 0, start)
      (vfs_create_file (heap_allocator 0x100000) 50 0x2000 0x1000 0x1100 start)).1
