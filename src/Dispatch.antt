-- ===== src/Dispatch.antt =====
-- The state of kernel/shell.c, and how execute_command finds the command that was typed.
-- The shell calls most other components: their models' states are the fields of `System`. The command
-- buffer stands in memory at `command_buffer`; a string literal that is compared stands at `literal`.
-- What the shell prints is a list of calls of the VGA driver, oldest first.
pub mod Choose
pub mod Chosen
use Prim.Native.String.{String}
use frisca_os.Prelude.{
  ℕ, zero, suc, ◌+◌, ◌-◌, ◌/◌, ◌≤◌, ◌<◌, ◌⊎◌, Bool, true, false, ◌&&◌, not, Option, none, some,
  List, [], ◌∷◌, ◌++◌, bit_and, length, get_or, leb, ltb, ◌==◌, if◌then◌else◌,
}
use frisca_os.Prelude.Ascii.{codes}
use frisca_os.Prelude.Run.{Run, ok, out_of_fuel, ◌>>=◌}
use frisca_os.CString.{Memory, ℤ, pos, negsuc, poke, strlen, strcmp, strncmp, strchr, text_at}
use frisca_os.CString.Copy.{is_zero}
use frisca_os.Heap.{Heap, kmalloc, kfree}
use frisca_os.Heap.Provider.{heap_allocator}
use frisca_os.Pmm.{Pmm, alloc_block, free_block, get_free_memory}
use frisca_os.Print.{uint_text}
use frisca_os.Timer.{Timer, Writes, get_ticks, sleep}
use frisca_os.Vfs.{Vfs, empty_node, vfs_create_file, vfs_read_file, vfs_list_files}
use frisca_os.Vga.Calls.{Call}

-- Where things stand in memory, what a local array holds before it is written, and the fuel for loops over
-- strings.
pub record Places : Type 0 where
  pub heap_start : ℕ
  pub table : ℕ
  pub command_buffer : ℕ
  pub literal : ℕ
  pub scratch : List ℕ
  pub fuel : ℕ

-- The static variables of the shell, the states of what it calls, the wakes and the status bytes that are
-- to come from the timer and the keyboard controller, and what was sent to ports.
pub record System : Type 0 where
  pub buffer_idx : ℕ
  pub files : Vfs Heap
  pub timer : Timer
  pub pmm : Pmm
  pub bg_counter : ℕ
  pub wakes : List ℕ
  pub status : List ℕ
  pub sent : Writes
  pub trap : Option ℕ

abbrev pub Output : Type 0
Output = List Call × System

abbrev pub say : String → Call
say t = Call.text (codes t)

pub data Command : Type 0 where
  help version timer testdelay mem testmem testheap crash divzero ps ls cat write clear reboots
        unknown :
      Command

-- A test of `execute_command`: by `strcmp`, or by `strncmp` with the length of the literal.
pub data Test : Type 0 where
  word prefix : String → Command → Test

-- The tests in their order.
abbrev pub tests : List Test
tests =
    Test.word "help" Command.help
    ∷ Test.word "version" Command.version
    ∷ Test.word "timer" Command.timer
    ∷ Test.word "testdelay" Command.testdelay
    ∷ Test.word "mem" Command.mem
    ∷ Test.word "testmem" Command.testmem
    ∷ Test.word "testheap" Command.testheap
    ∷ Test.word "crash" Command.crash
    ∷ Test.word "divzero" Command.divzero
    ∷ Test.word "ps" Command.ps
    ∷ Test.word "ls" Command.ls
    ∷ Test.prefix "cat " Command.cat
    ∷ Test.prefix "write " Command.write
    ∷ Test.word "clear" Command.clear
    ∷ Test.word "reboot" Command.reboots
    ∷ []

-- The literal and its terminator, ten bytes at most, stand beside the command buffer, below it or above.
abbrev pub LiteralsApart : Places → Type 0
LiteralsApart p = (p.literal + 10 ≤ p.command_buffer) ⊎ (p.command_buffer + 255 < p.literal)

-- Memory with a literal at `p`.
abbrev pub with_literal : ℕ → List ℕ → Memory → Memory
with_literal p t m = λ x. if leb p x && leb x (p + length t) then get_or t (x - p) 0 else m x

module _ (p : Places) where
  pub matches : Test → Memory → Run Bool
  matches (Test.word t c) m = do
    r ← strcmp p.fuel (with_literal p.literal (codes t) m) p.command_buffer p.literal
    ok (is_zero r)
  matches (Test.prefix t c) m = ok (
      is_zero (
        strncmp (length (codes t)) (with_literal p.literal (codes t) m) p.command_buffer p.literal))

  abbrev pub command_of : Test → Command
  command_of (Test.word t c) = c
  command_of (Test.prefix t c) = c

  -- The chain of `if` and `else if`.
  pub select : List Test → Memory → Run Command
  select [] m = ok Command.unknown
  select (t ∷ ts) m = do
    hit ← matches t m
    let rest = select ts m
    if hit then ok (command_of t) else rest
