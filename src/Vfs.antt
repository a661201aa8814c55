-- ===== src/Vfs.antt =====
-- kernel/fs/vfs.c: the table of files in memory.
-- A string is the address of its bytes in `bytes`; the table stands at the address `table`, so that the
-- name of the file `i` is at `name_at i`, and the other fields of its entry are in `nodes`. The heap is
-- any allocator. The loops over strings run on `fuel`, one unit for each byte.
pub mod Create
pub mod Files
pub mod Find
pub mod Listing
pub mod LongName
pub mod ReadBack
pub mod Sample
pub mod Store
mod Tests
use frisca_os.Prelude.{
  ℕ, zero, suc, ◌+◌, ◌-◌, ◌*◌, ◌/◌, ◌%◌, ◌^◌, Option, none, some, Bool, true, false, List, [], ◌∷◌,
  ◌++◌, map, replicate, get_or, set, leb, ltb, ◌==◌, if◌then◌else◌,
}
use frisca_os.Prelude.Ascii.{codes}
use frisca_os.Prelude.Run.{Run, ok, out_of_fuel, ◌>>=◌}
use frisca_os.Prelude.Word.{add32}
use frisca_os.Allocator.{Allocator}
use frisca_os.CString.{Memory, ℤ, pos, negsuc, poke, strlen, strcmp, memcpy, text_at}
use frisca_os.CString.Copy.{is_zero}
use frisca_os.Vga.Calls.{Call}

-- MAX_FILES
abbrev pub max_files : ℕ
max_files = 16

-- MAX_FILENAME
abbrev pub max_filename : ℕ
max_filename = 32

-- FS_FILE
abbrev pub fs_file : ℕ
fs_file = 0x01

-- The fields of `vfs_node_t` but for the name.
pub record Node : Type 0 where
  pub flags : ℕ
  pub length : ℕ
  pub buffer : ℕ

-- sizeof(vfs_node_t): 32 bytes and three words.
abbrev pub node_size : ℕ
node_size = 44

abbrev pub empty_node : Node
empty_node = record { flags = 0; length = 0; buffer = 0 }

-- The static variables, with memory and the heap.
pub record Vfs (H : Type 0) : Type 0 where
  pub bytes : Memory
  pub nodes : List Node
  pub file_count : ℕ
  pub heap : H

module _ (A : Allocator) (fuel table : ℕ) where
  abbrev pub name_at : ℕ → ℕ
  name_at i = table + node_size * i

  -- The loop of `vfs_init` from the entry `i` on, with `n` rounds left.
  pub clear_slots : ℕ → ℕ → Vfs A.State → Vfs A.State
  clear_slots zero i v = v
  clear_slots (suc n) i v =
      clear_slots n (i + 1)
        (record v { bytes = poke (name_at i) 0 v.bytes; nodes = set v.nodes i empty_node })

  pub vfs_init : Vfs A.State → Vfs A.State
  unfolding clear_slots
  vfs_init v = clear_slots max_files 0 (record v { file_count = 0 })

  -- The loop over the names from the entry `i` on, in `vfs_create_file` and `vfs_read_file`.
  pub find_name : ℕ → ℕ → ℕ → Memory → Run (Option ℕ)
  find_name zero i name bytes = ok none
  find_name (suc n) i name bytes = do
    r ← strcmp fuel bytes (name_at i) name
    let rest = find_name n (i + 1) name bytes
    if is_zero r then ok (some i) else rest

  -- `vfs_create_file` from where the buffer `buf` is allocated, with the content's length `len`.
  pub store_file : ℕ → ℕ → ℕ → ℕ → Vfs A.State → Run (ℤ × Vfs A.State)
  store_file name content len buf v = do
    let filled = poke (buf + len) 0 (memcpy len 0 buf content v.bytes)
    full ← strlen fuel filled name
    let name_len = if leb max_filename full then max_filename - 1 else full
    let slot = name_at v.file_count
    let named = poke (slot + name_len) 0 (memcpy name_len 0 slot name filled)
    ok (
      pos 0,
      record v {
        bytes = named;
        nodes = set v.nodes v.file_count (record { flags = fs_file; length = len; buffer = buf });
        file_count = add32 v.file_count 1;
      },
    )

  -- `vfs_create_file` from the allocation on.
  pub add_file : ℕ → ℕ → Vfs A.State → Run (ℤ × Vfs A.State)
  unfolding store_file
  add_file name content v = do
    len ← strlen fuel v.bytes content
    r ← A.alloc (add32 len 1) v.heap
    let u = record v { heap = r.1 }
    if r.0 == 0 then ok (negsuc 2, u) else store_file name content len r.0 u

  -- `vfs_create_file`, with -1, -2 and -3 as in the source.
  pub vfs_create_file : ℕ → ℕ → Vfs A.State → Run (ℤ × Vfs A.State)
  unfolding find_name add_file
  vfs_create_file name content v = if leb max_files v.file_count then ok (negsuc 0, v) else do
    found ← find_name v.file_count 0 name v.bytes
    elim found [ some i ↦ ok (negsuc 1, v) | none ↦ add_file name content v ]

  -- `vfs_read_file`: a pointer into the table as its index, and none for NULL.
  pub vfs_read_file : ℕ → Vfs A.State → Run (Option ℕ)
  unfolding find_name
  vfs_read_file name v = find_name v.file_count 0 name v.bytes

  -- The loop of `vfs_list_files` that writes the digits of a size, the last digit first; `temp` holds them
  -- in the order in which they are taken back from it.
  pub size_loop : ℕ → ℕ → List ℕ → Run (List ℕ)
  size_loop zero val temp = out_of_fuel
  size_loop (suc n) val temp =
      let rest = size_loop n (val / 10) ((b'0' + val % 10) ∷ temp) in
      if ltb 0 val then rest else ok temp

  -- The size of a file as text; a word from 2 ^ 31 on is a negative `int`.
  pub size_text : ℕ → Run (List ℕ)
  unfolding size_loop
  size_text val =
      if val == 0 then ok (codes "0") else if ltb val (2 ^ 31) then size_loop 11 val [] else ok []

  -- The calls of the VGA driver for the entries from `i` on, with `n` rounds left.
  pub list_rows : ℕ → ℕ → Vfs A.State → Run (List Call)
  unfolding size_text
  list_rows zero i v = ok []
  list_rows (suc n) i v = do
    name ← text_at fuel v.bytes (name_at i)
    len ← strlen fuel v.bytes (name_at i)
    num_str ← size_text (get_or v.nodes i empty_node).length
    rest ← list_rows n (i + 1) v
    let spaces = if ltb (33 - len) 1 then 1 else 33 - len
    ok (
        Call.text name ∷ map Call.char (replicate spaces b' ')
        ++ Call.text num_str ∷ Call.text (codes "\n") ∷ rest)

  pub vfs_list_files : Vfs A.State → Run (List Call)
  unfolding list_rows
  vfs_list_files v =
      if v.file_count == 0 then ok (Call.text (codes "No files found.\n") ∷ []) else do
        rows ← list_rows v.file_count 0 v
        ok (
            Call.text (codes "Name                             Size (Bytes)\n")
            ∷ Call.text (codes "---------------------------------------------\n")
            ∷ rows)
