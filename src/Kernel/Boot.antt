-- ===== src/Kernel/Boot.antt =====
-- What `kernel_main` of kernel/kernel.c has set up when it halts.
use frisca_os.Prelude.{
  ℕ, ◌+◌, ◌*◌, ◌^◌, ◌≤◌, ◌<◌, ◌≡◌, ◌≢◌, refl, sym, ◌∙◌, true, none, List, [], ◌∷◌, ◌++◌, length,
  arith,
}
use frisca_os.Prelude.Run.{ok}
use frisca_os.Dispatch.{Places}
use frisca_os.Heap.{Heap, header, heap_init}
use frisca_os.Heap.Init.{heap_init-Holds, heap_init-max_blocks}
use frisca_os.Heap.Layout.{Block, block, Holds, Live}
use frisca_os.Heap.Provider.{heap_allocator}
use frisca_os.Idt.{Stubs, idt_init}
use frisca_os.Idt.Install.{Installed, Words, idt_init-Installed}
use mathlib.Core.Path.{subst}
use frisca_os.Paging.{paging_init}
use frisca_os.Paging.Memory.{paging_init-FilledTo}
use frisca_os.Paging.Identity.{IdentityMap, paging_init-IdentityMap}
use frisca_os.Pmm
use frisca_os.Pmm.{Pmm}
use frisca_os.Pmm.Init.{init-Boots}
use frisca_os.Pmm.Order.{FilledTo, Boots-FilledTo}
use frisca_os.Shell.Edit.{Typed}
use frisca_os.Task.{task_init}
use frisca_os.Task.Create.{Scheduled}
use frisca_os.Task.Start.{task_init-Scheduled, create_task_fresh}
use frisca_os.Timer.Program.{init-exact}
use frisca_os.Vfs.{vfs_init}
use frisca_os.Vfs.Files.{Represents}
use frisca_os.Vfs.ReadBack.{vfs_init-Represents}
use frisca_os.Vga
use frisca_os.Vga.Inv.{IsValid, vga_init-IsValid}
use frisca_os.Vga.Calls.{perform_all-IsValid}
use frisca_os.Shell.{shell_init}
use frisca_os.Kernel.{Kernel, kernel_main, show}

module _ (p : Places) (h : Stubs) (idt_address main_task background_task : ℕ) where
  -- The kernel is up: the interrupts are served, the first 16 MB are mapped, the run queue holds the main
  -- task, which runs, and the background task, which has a stack of its own, on a heap that they share with
  -- the file table, which is empty; 265 blocks of physical memory are used, and no line is typed.
  pub record Booted (k : Kernel) : Type 0 where
    pub blocks : List Block
    pub background : ℕ
    pub screen : IsValid k.screen
    pub gates : Installed h idt_address k.cpu
    pub mapped : IdentityMap k.machine
    pub scheduled : Scheduled k.tasks blocks (background ∷ [])
    pub stack_room : ℕ
    pub stack : 4096 ≤ stack_room
    pub stack_live : Live p.heap_start blocks (k.tasks.task background).stack stack_room
    pub head : k.tasks.task_list ≡ main_task
    pub running : k.tasks.current_task ≡ main_task
    pub one_heap : k.system.files.heap ≡ k.tasks.heap
    pub table : Represents (heap_allocator p.heap_start) p.table k.system.files blocks []
    pub line : Typed p k.system []
    pub memory : FilledTo 265 k.system.pmm
    pub frequency : k.system.timer.target_freq ≡ 100
    pub ticks : k.system.timer.ticks < 2 ^ 32
    pub counter : k.system.bg_counter < 2 ^ 32
    pub alive : k.system.trap ≡ none

  -- What the linker and the boot loader provide, and the sizes of the static arrays.
  pub record Loaded (k : Kernel) : Type 0 where
    pub bitmap : length k.system.pmm.bitmap ≡ 128
    pub cells : length k.screen.buffer ≡ 2000
    pub gates : length k.cpu.idt ≡ 256
    pub nodes : length k.system.files.nodes ≡ 16
    pub stubs : Words h
    pub some_task : main_task ≢ 0
    pub below_heap : main_task < 0x100000 + header
    pub heap_start : p.heap_start ≡ 0x100000
    pub ticks : k.system.timer.ticks < 2 ^ 32
    pub counter : k.system.bg_counter < 2 ^ 32
    pub alive : k.system.trap ≡ none

  -- The physical memory after `pmm_init` and `heap_init`.
  memory_ready :
      (q : Pmm) (g : Heap)
      → length q.bitmap ≡ 128
      → let m = heap_init (Pmm.init (16 * 1024 * 1024) q) g in
        Holds m.0 (block 16372 true ∷ [])
        × (m.0.heap_start ≡ 0x100000)
        × FilledTo 260 m.1
        × (m.1.max_blocks ≡ 4096)
  memory_ready q g full =
      let boots = init-Boots (16 * 1024 * 1024) q full in
      let filled = Boots-FilledTo (16 * 1024 * 1024) boots (omega arith) in
      let start = Pmm.init (16 * 1024 * 1024) q in
      let heap = heap_init-Holds 256 g filled (omega arith) (omega (arith, boots.managed)) in
      (
        heap.0,
        heap.1,
        heap.2,
        heap_init-max_blocks 256 g filled (omega (arith, boots.managed)) ∙ boots.managed,
      )

  -- kernel_main gets to its loop, and has set up the kernel: the cursor is on the screen, the
  -- vectors 0 to 33 lead to their stubs, the first 16 MB are mapped to themselves, the run queue
  -- holds the main task, which runs, and the background task, which has a stack of its own, on a
  -- heap that they share with the file table, which is empty; 265 blocks of physical memory are
  -- used, no line is typed and the timer's target frequency is 100.
  pub kernel_main-Booted :
      (k : Kernel)
      → Loaded k
      → (after : Kernel) × (kernel_main p h idt_address main_task background_task k ≡ ok after)
        × Booted after
  unfolding kernel_main show shell_init task_init
  kernel_main-Booted k l =
      let s = k.system in
      let m = heap_init (Pmm.init (16 * 1024 * 1024) s.pmm) s.files.heap in
      let ready = memory_ready s.pmm s.files.heap l.bitmap in
      let timer = init-exact 100 s.timer (omega arith) in
      let tasks = record k.tasks { heap = m.0 } in
      let scheduled =
        task_init-Scheduled main_task tasks (block 16372 true ∷ []) ready.0 tt l.some_task
          (omega (arith, l.below_heap, ready.1)) in
      let created = create_task_fresh background_task (task_init main_task tasks) [] scheduled in
      let mapped = paging_init-IdentityMap 260 m.1 k.machine ready.2 (omega (arith, ready.3)) in
      let files =
        vfs_init-Represents (heap_allocator p.heap_start) p.fuel p.table
          (record s.files { heap = m.0 }) (block 16372 true ∷ [])
          (ready.0, ready.1 ∙ sym l.heap_start) l.nodes in
      let u = record s {
        files =
            record (vfs_init (heap_allocator p.heap_start) p.fuel p.table
              (record s.files { heap = m.0 })) { heap = created.after.heap };
        timer = record s.timer { target_freq = 100 };
        pmm = (paging_init m.1 k.machine).1;
        sent = s.sent ++ (idt_init h idt_address k.cpu).1 ++ timer.0;
      } in
      (
        show (shell_init u) (record k {
          screen = Vga.vga_init k.screen;
          cpu = (idt_init h idt_address k.cpu).0;
          machine = (paging_init m.1 k.machine).0;
          tasks = created.after;
        }),
        rw (timer.1, created.returns) refl,
        record {
          blocks = created.blocks;
          background = created.a;
          screen =
              perform_all-IsValid (shell_init u).0 (Vga.vga_init k.screen)
                (vga_init-IsValid k.screen l.cells);
          gates = idt_init-Installed h idt_address k.cpu l.stubs l.gates;
          mapped = mapped;
          scheduled = created.scheduled;
          stack_room = created.room;
          stack = created.stack_room;
          stack_live =
              subst (λ q. Live q created.blocks (created.after.task created.a).stack created.room)
                (created.same_start ∙ ready.1 ∙ sym l.heap_start) created.stack_live;
          head = created.same_head;
          running = created.same_current;
          one_heap = refl;
          table = record {
            heap = (created.scheduled.holds, created.same_start ∙ ready.1 ∙ sym l.heap_start);
            count = files.0.count;
            bounded = omega arith;
            whole = files.0.whole;
            files = λ i lt. absurd (omega arith);
          };
          line = record {
            count = refl;
            bounded = omega arith;
            bytes = λ i lt. absurd (omega arith);
          };
          memory = paging_init-FilledTo 260 m.1 k.machine ready.2 (omega (arith, ready.3));
          frequency = refl;
          ticks = l.ticks;
          counter = l.counter;
          alive = l.alive;
        },
      )
