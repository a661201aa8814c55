-- ===== src/Command.antt =====
-- The commands of kernel/shell.c: one function for each branch of execute_command.
-- The commands that end in an exception leave its vector in `trap`, and nothing after it is done: 14 for
-- `crash`, whose address 0xDEADBEEF is not mapped, and 0 for `divzero`.
pub mod Sound
pub mod SoundFiles
pub mod SoundWait
pub mod SoundWrite
pub mod Write
use Prim.Native.String.{String}
use frisca_os.Prelude.{
  ℕ, zero, suc, ◌+◌, ◌-◌, ◌/◌, Bool, true, false, ◌&&◌, not, Option, none, some, List, [], ◌∷◌,
  ◌++◌, bit_and, length, get_or, leb, ltb, ◌==◌, if◌then◌else◌,
}
use frisca_os.Prelude.Ascii.{codes}
use frisca_os.Prelude.Run.{Run, ok, out_of_fuel, ◌>>=◌}
use frisca_os.CString.{Memory, ℤ, pos, negsuc, poke, strlen, strcmp, strncmp, strchr, text_at}
use frisca_os.CString.Copy.{is_zero}
use frisca_os.Heap.{Heap, kmalloc, kfree}
use frisca_os.Heap.Provider.{heap_allocator}
use frisca_os.Pmm.{Pmm, alloc_block, free_block, get_free_memory}
use frisca_os.Print.{uint_text}
use frisca_os.Timer.{Timer, Writes, get_ticks, sleep}
use frisca_os.Vfs.{Vfs, empty_node, vfs_create_file, vfs_read_file, vfs_list_files}
use frisca_os.Vga.Calls.{Call}
use frisca_os.Dispatch.{Command, Places, System, Output, say}

-- The loop of `reboot` over the status bytes that are read; a byte that is drained is dropped.
pub wait_ready : List ℕ → Run (List ℕ)
wait_ready [] = out_of_fuel
wait_ready (temp ∷ rest) =
    let again = wait_ready rest in if not (bit_and temp 2 == 0) then again else ok rest

pub reboot : System → Run Output
unfolding wait_ready
reboot s = do
  rest ← wait_ready s.status
  ok (
    say "Rebooting system...\n" ∷ [],
    record s { status = rest; sent = s.sent ++ (0x64, 0xfe) ∷ [] },
  )

abbrev pub help_text : List Call
help_text =
    say "Available commands:\n"
    ∷ say "  help      - Show this help message\n"
    ∷ say "  version   - Display Frisca OS version\n"
    ∷ say "  timer     - Show system uptime in seconds and ticks\n"
    ∷ say "  testdelay - Test 2 seconds sleep delay\n"
    ∷ say "  mem       - Show free physical memory\n"
    ∷ say "  testmem   - Test Physical Memory Manager (PMM)\n"
    ∷ say "  testheap  - Test Heap Allocator (kmalloc/kfree)\n"
    ∷ say "  ps        - List running tasks & background counter\n"
    ∷ say "  ls        - List all files in VFS RAMDisk\n"
    ∷ say "  cat       - Display file content (Usage: cat <filename>)\n"
    ∷ say "  write     - Write to file (Usage: write <filename> <content>)\n"
    ∷ say "  clear     - Clear the screen\n"
    ∷ say "  reboot    - Restart the system\n"
    ∷ []

module _ (p : Places) where
  -- `print_uint`
  pub number : ℕ → Run Call
  number n = do t ← uint_text n p.scratch; ok (Call.text t)

  pub run_timer : System → Run Output
  unfolding number
  run_timer s = do
    seconds ← number (get_ticks s.timer / 100)
    ticks ← number (get_ticks s.timer)
    ok (say "System Uptime: " ∷ seconds ∷ say " s (Total Ticks: " ∷ ticks ∷ say ")\n" ∷ [], s)

  unfoldable pub run_testdelay : System → Run Output
  run_testdelay s = do
    r ← sleep 2000 s.wakes s.timer
    ok (say "Waiting 2 seconds...\n" ∷ say "Done!\n" ∷ [], record s { wakes = r.0; timer = r.1 })

  pub run_mem : System → Run Output
  unfolding number
  run_mem s = do
    free ← number (get_free_memory s.pmm / 1024)
    ok (say "Free Memory: " ∷ free ∷ say " KB\n" ∷ [], s)

  pub run_testmem : System → Run Output
  unfolding number
  run_testmem s = do
    let r = alloc_block s.pmm
    address ← number r.0
    ok (
      say "Allocating 1 Block (4KB)...\n"
          ∷ say "Allocated Block Address: "
          ∷ address
          ∷ say "\nFreeing block...\n"
          ∷ say "Done!\n"
          ∷ [],
      record s { pmm = free_block r.0 r.1 },
    )

  pub give_back : ℕ → Heap → Run (List Call × Heap)
  give_back str h = if str == 0 then ok (say "Failed to allocate memory!\n" ∷ [], h) else (do
    g ← kfree str h
    ok (
      say "Memory allocated successfully!\n" ∷ say "Freeing heap memory...\n" ∷ say "Done!\n" ∷ [],
      g,
    ))

  pub run_testheap : System → Run Output
  unfolding give_back
  run_testheap s = do
    r ← kmalloc 32 s.files.heap
    o ← give_back r.0 r.1
    ok (
      say "Testing Heap Allocator (kmalloc)...\n" ∷ o.0,
      record s { files = record s.files { heap = o.1 } },
    )

  pub run_ps : System → Run Output
  unfolding number
  run_ps s = do
    count ← number s.bg_counter
    ok (
      say "Running Tasks:\n"
          ∷ say "  PID 0: Shell (Main Task) [RUNNING]\n"
          ∷ say "  PID 1: Background Counter Task [RUNNING]\n"
          ∷ say "Background Task Counter: "
          ∷ count
          ∷ say "\n"
          ∷ [],
      s,
    )

  -- What `cat` prints of the file that was found: its buffer, if there is one.
  unfoldable pub show_file : Option ℕ → System → Run Output
  show_file none s = ok (say "File not found!\n" ∷ [], s)
  show_file (some i) s =
      let buffer = (get_or s.files.nodes i empty_node).buffer in
      if buffer == 0
      then ok (say "File not found!\n" ∷ [], s)
      else (do t ← text_at p.fuel s.files.bytes buffer; ok (Call.text t ∷ say "\n" ∷ [], s))

  unfoldable pub run_cat : System → Run Output
  unfolding show_file
  run_cat s = do
    let filename = p.command_buffer + 4
    len ← strlen p.fuel s.files.bytes filename
    if len == 0 then ok (say "Usage: cat <filename>\n" ∷ [], s) else do
      file ← vfs_read_file (heap_allocator p.heap_start) p.fuel p.table filename s.files
      show_file file s

  -- What `write` prints for the result of `vfs_create_file`.
  unfoldable pub creation_message : ℤ → Call
  creation_message (pos zero) = say "File created successfully!\n"
  creation_message (negsuc (suc zero)) = say "Error: File already exists!\n"
  creation_message r = say "Error creating file!\n"

  unfoldable pub create_file : ℕ → ℕ → System → Run Output
  unfolding creation_message
  create_file name content s = do
    r ← vfs_create_file (heap_allocator p.heap_start) p.fuel p.table name content s.files
    ok (creation_message r.0 ∷ [], record s { files = r.1 })

  -- `write`, where the space behind the name stands at `space_ptr`.
  pub write_file : ℕ → ℕ → System → Run Output
  unfolding create_file
  write_file args space_ptr s = do
    let v = record s.files { bytes = poke space_ptr 0 s.files.bytes }
    let content = space_ptr + 1
    name_len ← strlen p.fuel v.bytes args
    content_len ← strlen p.fuel v.bytes content
    let given = ltb 0 name_len && ltb 0 content_len
    if given
        then create_file args content (record s { files = v })
        else ok (say "Usage: write <filename> <content>\n" ∷ [], record s { files = v })

  pub run_write : System → Run Output
  unfolding write_file
  run_write s = do
    let args = p.command_buffer + 6
    space_ptr ← strchr p.fuel s.files.bytes args b' '
    if space_ptr == 0
        then ok (say "Usage: write <filename> <content>\n" ∷ [], s)
        else write_file args space_ptr s

  -- Light red is 12.
  pub run_unknown : System → Run Output
  run_unknown s = do
    t ← text_at p.fuel s.files.bytes p.command_buffer
    ok (
      Call.color 12 0
          ∷ say "Unknown command: "
          ∷ Call.text t
          ∷ say "\nType 'help' for a list of commands.\n"
          ∷ Call.color 15 0
          ∷ [],
      s,
    )

  unfoldable pub run_command : Command → System → Run Output
  run_command Command.help s = ok (help_text, s)
  run_command Command.version s =
      ok (say "Frisca OS v0.1.0 (32-bit Protected Mode, Multitasking & VFS Active)\n" ∷ [], s)
  run_command Command.timer s = run_timer s
  run_command Command.testdelay s = run_testdelay s
  run_command Command.mem s = run_mem s
  run_command Command.testmem s = run_testmem s
  run_command Command.testheap s = run_testheap s
  run_command Command.crash s =
      ok (say "Triggering page fault...\n" ∷ [], record s { trap = some 14 })
  run_command Command.divzero s = ok ([], record s { trap = some 0 })
  run_command Command.ps s = run_ps s
  run_command Command.ls s = do
    calls ← vfs_list_files (heap_allocator p.heap_start) p.fuel p.table s.files
    ok (calls, s)
  run_command Command.cat s = run_cat s
  run_command Command.write s = run_write s
  run_command Command.clear s = ok (Call.blank ∷ [], s)
  run_command Command.reboots s = reboot s
  run_command Command.unknown s = run_unknown s
