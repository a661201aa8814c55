-- ===== src/Lib.antt =====
-- FriscaOS, a 32-bit kernel for the i386: verification of its C code.
--
-- The kernel boots with a physical memory manager (kernel/memory/pmm.c), a bitmap of 4 KB blocks;
-- the heap (kernel/memory/heap.c) takes four of these blocks and serves kmalloc and kfree; the timer
-- and keyboard drivers (kernel/drivers) run on interrupts; the shell (kernel/shell.c) gets the keys and
-- calls the file table (kernel/fs/vfs.c), which keeps its files in the heap, and the others. What is
-- printed goes to the text screen (kernel/drivers/vga/vga.c).
--
-- Prelude and its children hold the shared helpers: Boolean tests, arrays as lists, bits and words
-- of fixed width, sums, and `Run`, the outcome of code that may fault or loop.
-- Pmm models kernel/memory/pmm.c: the static variables are the record `Pmm`, and pmm_init,
--   pmm_alloc_block, pmm_free_block and pmm_get_free_memory are `init`, `alloc_block`, `free_block`
--   and `get_free_memory`. Pmm/State has the invariant, Pmm/Order a run of allocations after boot.
-- Heap models kernel/memory/heap.c: headers in memory under their addresses, heap_init, kmalloc and
--   kfree. Heap/Layout is the abstract view, a sequence of adjacent blocks, with first fit and
--   merging; heap_init calls the model of the physical memory manager.
-- Keyboard models kernel/drivers/keyboard/keyboard.c: the interrupt handler from a scancode to the
--   character that shell_input gets.
-- Timer models kernel/drivers/timer/timer.c: programming the PIT, the tick handler, and sleep
--   (Timer/Sleep when it returns, Timer/Enough what it leaves).
-- Vga models kernel/drivers/vga/vga.c: the buffer of 80 by 25 cells, the cursor and the color, with
--   vga_putchar as `putchar` and vga_write as `write`; Vga/Cursor reads the port writes.
-- Idt models kernel/arch/i386/idt.c: the gates (Idt/Gates, Idt/Install) and the initialisation of the
--   two PICs (Idt/Pic); its two handlers call the models of the timer and the keyboard.
-- Paging models kernel/memory/paging.c: the tables that paging_init writes (Paging/Tables) and the
--   translation that the processor reads off them (Paging/Identity).
-- CString models the strings and blocks of kernel/lib/string.c over memory; the loops that run to a
--   terminator run on fuel, of which more than the length of the text is enough.
-- Task models kernel/task/task.c: the circular run queue, create_task over the heap's model, and
--   task_schedule, with what switch_to_task of kernel/task/task_asm.asm does to the stack pointers;
--   Task/Ring sees the queue as a sequence of tasks, Task/Turns is about the turns that they take, and
--   Task/Frame, Task/Create and Task/Start are about the stack of a new task, its creation on every
--   branch, and the start.
-- Vfs models kernel/fs/vfs.c over memory and the interface Allocator, which Heap/Provider fills with
--   kmalloc; Vfs/Files is the abstract view, a sequence of files, Vfs/Find the search for a name,
--   Vfs/Create and Vfs/Store the creation, Vfs/ReadBack the table at first and after a creation,
--   Vfs/Listing what is listed, and Vfs/LongName names that do not fit in an entry.
-- Print models print_uint (Print/Decimal) and print_hex (Print/Hex) of kernel/lib/string.c.
-- Dispatch, Command and Shell model kernel/shell.c. Dispatch has the state, which holds those of the
--   components that the shell calls, and the tests by which execute_command finds the command (its
--   theorem in Dispatch/Choose); Command has a function for each branch, and Shell has execute_command
--   and shell_input. Shell/Edit is about the line that is typed, Shell/Enter about what runs at Enter,
--   Shell/Written and Command/Write about write, down to the heap, and Shell/Shown about cat;
--   Shell/Returns is about any line, with Command/Sound, SoundFiles, SoundWait and SoundWrite for its
--   commands and Dispatch/Chosen for the lines that they are chosen for.
--   Shell/Session is about characters in a row, Shell/CatLine and Shell/ReadBack about two lines, and
--   Shell/Again about keys that come while a command runs.
-- Kernel models kernel/kernel.c, with kernel_main composed of all parts (Kernel/Boot), and the
--   interrupts of the keyboard and the timer after it, the latter with what irq0_handler in
--   kernel/arch/i386/interrupt.asm calls: Kernel/Typing is about keys in a row, through the keyboard
--   driver, the shell and the screen, and Kernel/Keys about the text that can be typed. Kernel/Events is
--   the relation of what can happen, Kernel/Running the invariant, Kernel/Stays the keyboard interrupt,
--   Kernel/Delay testdelay while others come, and Kernel/Alive any sequence of events.
-- Panic models kernel/lib/panic.c and kernel/arch/i386/isr.c, the messages before the kernel halts.
--
-- Words are natural numbers with the wrap-around written out (Prelude/Word). The loops of kmalloc and
-- kfree run on fuel of 1366 rounds: a heap of 16 KB has at most 1365 headers of 12 bytes, and the
-- theorems on kmalloc and kfree say that the fuel suffices. The loops over strings run on one unit of
-- fuel for each byte, and their theorems ask for more fuel than the string is long: 256 are enough for a
-- line of the shell. The other loops are bounded in the source, or end with a list that stands for what
-- happens meanwhile.
--
-- The addresses of the file table, the command buffer, the heap and the string literals are the fields
-- of `Places` (Dispatch). `LiteralsApart` asks that no literal meets the buffer, as with linker.ld,
-- which puts .rodata, with the literals, below .bss, with the buffer; the examples lay them out so.
--
-- Not modelled: the assembly under boot/ and kernel/ (interrupt stubs, the registers that
-- switch_to_task pushes and pops, loading CR3 and CR0), which is not C; the port instructions of
-- kernel/arch/i386/io.h, of which the writes are results here; and what interrupts each other, but
-- for what comes while testdelay waits: else an interrupt runs to its end here, and none comes
-- before kernel_main halts. In the shell alone the waits of sleep and reboot read what happens
-- meanwhile from a list.
pub mod Prelude
pub mod Allocator
pub mod Pmm
pub mod Heap
pub mod Keyboard
pub mod Timer
pub mod Vga
pub mod Idt
pub mod Paging
pub mod CString
pub mod Print
pub mod Task
pub mod Vfs
pub mod Dispatch
pub mod Command
pub mod Shell
pub mod Kernel
pub mod Panic
