-- ===== src/Kernel.antt =====
-- kernel/kernel.c: the start of the kernel, the background task, and what the two interrupts do.
-- The heap is one: the tasks and the file table get it in turn. No interrupt comes before `kernel_main`
-- halts, though interrupts are on from `idt_init`. What is sent to ports is in `system.sent`.
pub mod Alive
pub mod Boot
pub mod Delay
pub mod Events
pub mod Keys
pub mod Running
pub mod Stays
pub mod Typing
mod Tests
use frisca_os.Prelude.{ℕ, ◌*◌, Bool, Option, none, some, List, [], ◌∷◌, ◌++◌, if◌then◌else◌}
use frisca_os.Prelude.Run.{Run, ok, ◌>>=◌}
use frisca_os.Prelude.Word.{add32}
use frisca_os.Dispatch.{Places, System, Output}
use frisca_os.Heap
use frisca_os.Heap.{heap_init}
use frisca_os.Heap.Provider.{heap_allocator}
use frisca_os.Idt.{Stubs, Cpu, idt_init, timer_handler_main, keyboard_handler_main}
use frisca_os.Keyboard.{handle_interrupt}
use frisca_os.Paging.{Machine, paging_init}
use frisca_os.Pmm
use frisca_os.Shell.{shell_init, shell_input}
use frisca_os.Task.{Scheduler, task_init, create_task, task_schedule}
use frisca_os.Timer
use frisca_os.Timer.{sleep, needs_reschedule, clear_reschedule}
use frisca_os.Vfs.{vfs_init}
use frisca_os.Vga
use frisca_os.Vga.{Screen}
use frisca_os.Vga.Calls.{perform_all}

-- The static variables of all parts.
pub record Kernel : Type 0 where
  pub screen : Screen
  pub cpu : Cpu
  pub machine : Machine
  pub tasks : Scheduler
  pub shift_pressed : Bool
  pub system : System

-- `bg_counter++`
pub count : System → System
count s = record s { bg_counter = add32 s.bg_counter 1 }

-- A round of the loop of `background_task`.
pub background_round : System → Run System
unfolding count
background_round s = do
  r ← sleep 500 s.wakes s.timer
  ok (record (count s) { wakes = r.0; timer = r.1 })

-- What a part of the shell has printed appears on the screen.
pub show : Output → Kernel → Kernel
show o k =
    let t = perform_all o.0 k.screen in
    record k { screen = t.0; system = record o.1 { sent = o.1.sent ++ t.1 } }

-- The addresses of the assembly stubs, of the table, of `main_task` and of `background_task`.
module _ (p : Places) (h : Stubs) (idt_address main_task background_task : ℕ) where
  -- `kernel_main` up to its loop, which halts.
  pub kernel_main : Kernel → Run Kernel
  unfolding show
  kernel_main k = do
    let s = k.system
    let c = idt_init h idt_address k.cpu
    t ← Timer.init 100 s.timer
    let m = heap_init (Pmm.init (16 * 1024 * 1024) s.pmm) s.files.heap
    let g = paging_init m.1 k.machine
    let files =
        vfs_init (heap_allocator p.heap_start) p.fuel p.table (record s.files { heap = m.0 })
    tasks ← create_task background_task (task_init main_task (record k.tasks { heap = m.0 }))
    let u = record s {
      files = record files { heap = tasks.1.heap };
      timer = t.0;
      pmm = g.1;
      sent = s.sent ++ c.1 ++ t.1;
    }
    ok (
        show (shell_init u)
          (record k { screen = Vga.vga_init k.screen; cpu = c.0; machine = g.0; tasks = tasks.1 }))

-- The next task runs, where the timer has asked for it; `saved` is the stack pointer that
-- `switch_to_task`, which is assembly, stores for the task that is left.
pub reschedule : ℕ → Kernel → Kernel
reschedule saved k =
    if needs_reschedule k.system.timer
    then record k {
      tasks = (task_schedule saved k.tasks).0;
      system = record k.system { timer = clear_reschedule k.system.timer };
    }
    else k

-- The timer interrupt: `irq0_handler` of kernel/arch/i386/interrupt.asm.
pub timer_irq : ℕ → Kernel → Kernel
unfolding reschedule
timer_irq saved k =
    let t = timer_handler_main k.system.timer in
    reschedule saved
      (record k { system = record k.system { timer = t.0; sent = k.system.sent ++ t.1 } })

-- The character that a key gives, if any, goes to the shell.
pub type_char : Places → Option ℕ → Kernel → Run Kernel
unfolding show
type_char p none k = ok k
type_char p (some c) k = do o ← shell_input p c k.system; ok (show o k)

-- The keyboard interrupt, with the scancode that is read.
pub keyboard_irq : Places → ℕ → Kernel → Run Kernel
unfolding type_char
keyboard_irq p scancode k =
    let r = keyboard_handler_main scancode k.shift_pressed in
    type_char p r.1.0
      (record k { shift_pressed = r.1.1; system = record k.system { sent = k.system.sent ++ r.0 } })
