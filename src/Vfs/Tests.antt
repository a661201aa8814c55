-- ===== src/Vfs/Tests.antt =====
-- Runs of kernel/fs/vfs.c over a fresh heap at 1 MB.
mod Long
use frisca_os.Prelude.{
  ℕ, ◌+◌, zero, suc, ◌-◌, ◌≤◌, ◌<◌, ◌^◌, ◌⊎◌, ◌≡◌, List, length, inl, refl, [], ◌∷◌, true, none,
  some, arith, get_or, replicate, length-replicate, ◌==◌, if◌then◌else◌,
}
use frisca_os.Prelude.Run.{ok, result_or}
use frisca_os.Heap.{Heap, node, kmalloc, find_fit, take_node}
use frisca_os.CString.{pos}
use frisca_os.Heap.Layout.{block, Holds}
use frisca_os.Heap.Provider.{heap_allocator}
use frisca_os.CString.Text.{HasText}
use frisca_os.Vfs.{Vfs, empty_node, vfs_init, vfs_create_file, vfs_read_file, vfs_list_files}
use frisca_os.Vfs.Listing.{Rows, vfs_list_files-Rows}
use frisca_os.Vfs.Sample.{sample, sample_blocks, sample_files, sample-Represents}
use frisca_os.Vga.Calls.{Call}
use frisca_os.Prelude.Ascii.{codes}
use frisca_os.Vfs.Files.{no_file, Represents, Outside}
use frisca_os.Vfs.Find.{FoundIn, name_of, vfs_read_file-FoundIn}
use frisca_os.Vfs.Create.{Creation, vfs_create_file-Creation}
use frisca_os.Vfs.ReadBack.{Cleared, vfs_init-Represents, vfs_read_file-vfs_create_file}

abbrev fresh : Heap
fresh = record {
  heap_start = 0x100000;
  cell = λ a. if a == 0x100000 then some (node 16372 true 0) else none;
}

fresh-Holds : Holds fresh (block 16372 true ∷ [])
fresh-Holds = record {
  chain = (refl, tt);
  filled = refl;
  words = (refl, tt);
  start_word = refl;
  above_null = omega arith;
  below_top = omega arith;
}

-- The strings "f" at 0x1000 and "hi" at 0x1002, and the table at 0x2000.
abbrev start : Vfs Heap
start = record {
  bytes = λ a. get_or (b'f' ∷ 0 ∷ b'h' ∷ b'i' ∷ 0 ∷ []) (a - 0x1000) 0;
  nodes = replicate 16 empty_node;
  file_count = 0;
  heap = fresh;
}

start-Represents : Represents (heap_allocator 0x100000) 0x2000 start (block 16372 true ∷ []) []
start-Represents = record {
  heap = (fresh-Holds, refl);
  count = refl;
  bounded = omega arith;
  whole = length-replicate 16 empty_node;
  files = λ i lt. absurd (omega arith);
}

name_there : HasText start.bytes 0x1000 (b'f' ∷ [])
name_there = (refl, omega arith, refl)

content_there : HasText start.bytes 0x1002 (b'h' ∷ b'i' ∷ [])
content_there = (refl, omega arith, (refl, omega arith, refl))

outside : (p n : ℕ) → p + n ≤ 0x2000 → Outside (heap_allocator 0x100000) 0x2000 p n
outside p n le = record { apart = inl le; below = omega arith }

vfs_create_file-Creation_example :
    Creation
      (heap_allocator 0x100000)
      50
      0x2000
      0x1000
      0x1002
      start
      []
      (b'f' ∷ [])
      (b'h' ∷ b'i' ∷ [])
      (block 16372 true ∷ [])
      (vfs_create_file (heap_allocator 0x100000) 50 0x2000 0x1000 0x1002 start)
vfs_create_file-Creation_example =
    vfs_create_file-Creation (heap_allocator 0x100000) 50 0x2000 0x1000 0x1002 start [] (b'f' ∷ [])
      (b'h' ∷ b'i' ∷ []) (block 16372 true ∷ []) start-Represents name_there content_there
      (outside 0x1000 2 (omega arith)) (outside 0x1002 3 (omega arith)) (omega arith) (omega arith)
      (omega arith) (omega arith) (omega arith)

vfs_read_file-FoundIn_example :
    FoundIn
      (name_of [])
      (b'f' ∷ [])
      0
      0
      (vfs_read_file (heap_allocator 0x100000) 50 0x2000 0x1000 start)
vfs_read_file-FoundIn_example =
    vfs_read_file-FoundIn (heap_allocator 0x100000) 50 0x2000 0x1000 start (block 16372 true ∷ [])
      [] (b'f' ∷ []) start-Represents name_there (omega arith)

vfs_init-Represents_example :
    Represents
      (heap_allocator 0x100000)
      0x2000
      (vfs_init (heap_allocator 0x100000) 50 0x2000 start)
      (block 16372 true ∷ [])
      []
    × Cleared
        (heap_allocator 0x100000)
        0x2000
        (record start { file_count = 0 })
        (vfs_init (heap_allocator 0x100000) 50 0x2000 start)
vfs_init-Represents_example =
    vfs_init-Represents (heap_allocator 0x100000) 50 0x2000 start (block 16372 true ∷ [])
      (fresh-Holds, refl) (length-replicate 16 empty_node)

-- After `write f hi`.
abbrev created : Vfs Heap
created =
    (result_or (pos 0, start)
      (vfs_create_file (heap_allocator 0x100000) 50 0x2000 0x1000 0x1002 start)).1

create_succeeds :
    vfs_create_file (heap_allocator 0x100000) 50 0x2000 0x1000 0x1002 start ≡ ok (pos 0, created)
unfolding vfs_create_file kmalloc find_fit take_node frisca_os.CString.Copy.is_zero
    frisca_os.CString.strlen frisca_os.CString.memcpy
create_succeeds = refl

vfs_read_file-vfs_create_file_example :
    (vfs_read_file (heap_allocator 0x100000) 50 0x2000 0x1000 created ≡ ok (some 0))
    × HasText created.bytes (get_or created.nodes 0 empty_node).buffer (b'h' ∷ b'i' ∷ [])
    × ((get_or created.nodes 0 empty_node).length ≡ 2)
vfs_read_file-vfs_create_file_example =
    vfs_read_file-vfs_create_file (heap_allocator 0x100000) 50 0x2000 0x1000 0x1002 start created
      (block 16372 true ∷ []) [] (b'f' ∷ []) (b'h' ∷ b'i' ∷ []) start-Represents name_there
      content_there (outside 0x1000 2 (omega arith)) (outside 0x1002 3 (omega arith)) (omega arith)
      (omega arith) (omega arith) (omega arith) (omega arith) (omega arith) create_succeeds

sample_sizes : (i : ℕ) → i < 1 → length (get_or sample_files i no_file).content < 2 ^ 31
sample_sizes zero lt = omega arith
sample_sizes (suc i) lt = absurd (omega arith)

vfs_list_files-Rows_example :
    ((length sample_files ≡ 0)
      × (vfs_list_files (heap_allocator 0x100000) 50 0x2000 (sample [])
          ≡ ok (Call.text (codes "No files found.\n") ∷ [])))
    ⊎ ((0 < length sample_files)
        × ((calls : List Call) × (vfs_list_files (heap_allocator 0x100000) 50 0x2000 (sample [])
              ≡ ok (
                  Call.text (codes "Name                             Size (Bytes)\n")
                  ∷ Call.text (codes "---------------------------------------------\n")
                  ∷ calls))
            × Rows sample_files 1 0 calls))
vfs_list_files-Rows_example =
    vfs_list_files-Rows (heap_allocator 0x100000) 50 0x2000 (sample []) sample_blocks sample_files
      (sample-Represents []) (omega arith) sample_sizes
