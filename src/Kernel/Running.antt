-- ===== src/Kernel/Running.antt =====
-- The kernel of kernel/kernel.c while it runs, and after an exception; the timer interrupt.
use frisca_os.Prelude.{
  ℕ, ◌≤◌, ◌≡◌, ◌≢◌, ◌⊎◌, inl, inr, refl, sym, ◌∙◌, Bool, some, List, [], ◌∷◌, arith,
}
use mathlib.Core.Path.{subst}
use frisca_os.CString.Copy.{NoZero}
use frisca_os.Command.Sound.{Sound}
use frisca_os.Dispatch.{Places, System}
use frisca_os.Heap.Layout.{Block, Live}
use frisca_os.Idt.{Stubs, timer_handler_main}
use frisca_os.Idt.Install.{Installed}
use frisca_os.Paging.Identity.{IdentityMap}
use frisca_os.Shell.Edit.{Typed}
use frisca_os.Task.{Scheduler, task_schedule}
use frisca_os.Task.Create.{AllPlaced, AllPlaced-kept}
use frisca_os.Task.Ring.{Queue, Chain, Chain-kept}
use frisca_os.Task.Turns.{task_schedule-Passes}
use frisca_os.Timer
use frisca_os.Timer.{needs_reschedule, clear_reschedule}
use frisca_os.Vfs.Files.{File}
use frisca_os.Vga.{Screen}
use frisca_os.Vga.Inv.{IsValid}
use frisca_os.Kernel.{Kernel, count, reschedule, timer_irq}

module _ (p : Places) (main : ℕ) where
  -- The main task and the background task take turns; the memory of both tasks, and the stack of the second,
  -- is in use.
  pub record TakeTurns (background : ℕ) (q : Scheduler) (w : List Block) : Type 0 where
    pub queue : Queue q (main ∷ background ∷ [])
    pub turn : (q.current_task ≡ main) ⊎ (q.current_task ≡ background)
    pub placed : AllPlaced p.heap_start w (main ∷ background ∷ [])
    pub stack_room : ℕ
    pub stack : 4096 ≤ stack_room
    pub stack_live : Live p.heap_start w (q.task background).stack stack_room

  -- Other blocks, of which those in use still are.
  pub TakeTurns-kept :
      (background : ℕ) (q : Scheduler) (v w : List Block)
      → ((x n : ℕ) → Live p.heap_start w x n → Live p.heap_start v x n)
      → TakeTurns background q w
      → TakeTurns background q v
  TakeTurns-kept background q v w kept t = record {
    queue = t.queue;
    turn = t.turn;
    placed =
        AllPlaced-kept p.heap_start p.heap_start w v (main ∷ background ∷ []) refl kept t.placed;
    stack_room = t.stack_room;
    stack = t.stack;
    stack_live = kept _ _ t.stack_live;
  }

  TakeTurns-schedule :
      (saved background : ℕ) (q : Scheduler) (w : List Block)
      → TakeTurns background q w
      → TakeTurns background (task_schedule saved q).0 w
  TakeTurns-schedule saved background q w t =
      let (head, some_main, (after, some_background, back)) = t.queue in
      let to : (a b : ℕ)
          → q.current_task ≡ a
          → a ≢ 0
          → (q.task a).next ≡ b
          → (b ≡ main) ⊎ (b ≡ background)
          → TakeTurns background (task_schedule saved q).0 w =
        λ a b is some_task leads turn.
          let on = task_schedule-Passes saved q (λ z. some_task (sym is ∙ z)) in
          let now = (task_schedule saved q).0 in
          let at : now.current_task ≡ b =
            on.current ∙ subst (λ c. (q.task c).next ≡ b) (sym is) leads in
          record {
            queue =
                subst (λ l. Chain now.task l (main ∷ background ∷ []) l) (sym on.same_list)
                  (Chain-kept (main ∷ background ∷ []) q.task_list q.task_list q.task now.task
                    on.same_next t.queue);
            turn = subst (λ c. (c ≡ main) ⊎ (c ≡ background)) (sym at) turn;
            placed = t.placed;
            stack_room = t.stack_room;
            stack = t.stack;
            stack_live =
                subst (λ stack. Live p.heap_start w stack t.stack_room)
                  (sym (on.same_stack background)) t.stack_live;
          } in
      elim t.turn [
        | inl m ↦ to main background m some_main after (inr refl)
        | inr b ↦ to background main b some_background (back ∙ head) (inl refl)
      ]

  module _ (h : Stubs) (idt_address : ℕ) where
    -- The kernel runs: a line is typed, the cursor is on the screen, the state of the parts is sound, the two
    -- tasks take turns, the interrupts are served, and the first 16 MB are mapped.
    pub record Running (k : Kernel) : Type 0 where
      pub line : List ℕ
      pub blocks : List Block
      pub files : List File
      pub background : ℕ
      pub typed : Typed p k.system line
      pub nz : NoZero line
      pub sound : Sound p k.system blocks files
      pub screen : IsValid k.screen
      pub tasks : TakeTurns background k.tasks blocks
      pub gates : Installed h idt_address k.cpu
      pub mapped : IdentityMap k.machine

    -- A page fault or a division error has come.
    pub record Halted (k : Kernel) : Type 0 where
      pub vector : ℕ
      pub trap : k.system.trap ≡ some vector
      pub exception : (vector ≡ 14) ⊎ (vector ≡ 0)
      pub screen : IsValid k.screen

    -- The kernel with another line and other files, screen and shift state.
    abbrev pub renew :
        (k : Kernel) (r : Running k) (screen : Screen) (shift : Bool) (t : System) (l : List ℕ)
        (v : List Block) (fs : List File)
        → IsValid screen
        → Typed p t l
        → NoZero l
        → Sound p t v fs
        → ((x n : ℕ) → Live p.heap_start r.blocks x n → Live p.heap_start v x n)
        → Running (record k { screen = screen; shift_pressed = shift; system = t })
    renew k r screen shift t l v fs valid typed nz sound kept = record {
      line = l;
      blocks = v;
      files = fs;
      background = r.background;
      typed = typed;
      nz = nz;
      sound = sound;
      screen = valid;
      tasks = TakeTurns-kept r.background k.tasks v r.blocks kept r.tasks;
      gates = r.gates;
      mapped = r.mapped;
    }

    -- A timer interrupt counts a tick and gives the processor to the other task.
    pub timer_irq-Running :
        (saved : ℕ) (k : Kernel) (r : Running k)
        → (now : Running (timer_irq saved k)) × (now.files ≡ r.files)
    unfolding timer_irq reschedule timer_handler_main Timer.handler needs_reschedule
        clear_reschedule
    timer_irq-Running saved k r = (
      record {
        line = r.line;
        blocks = r.blocks;
        files = r.files;
        background = r.background;
        typed = record { count = r.typed.count; bounded = r.typed.bounded; bytes = r.typed.bytes };
        nz = r.nz;
        sound = record {
          table = r.sound.table;
          memory = r.sound.memory;
          ticks = omega arith;
          counter = r.sound.counter;
          frequency = r.sound.frequency;
          alive = r.sound.alive;
        };
        screen = r.screen;
        tasks = TakeTurns-schedule saved r.background k.tasks r.blocks r.tasks;
        gates = r.gates;
        mapped = r.mapped;
      },
      refl,
    )

    pub count-Running :
        (k : Kernel) (r : Running k)
        → (now : Running (record k { system = count k.system })) × (now.files ≡ r.files)
    unfolding count
    count-Running k r = (
      renew k r k.screen k.shift_pressed (count k.system) r.line r.blocks r.files r.screen
          (record { count = r.typed.count; bounded = r.typed.bounded; bytes = r.typed.bytes }) r.nz
          (record {
            table = r.sound.table;
            memory = r.sound.memory;
            ticks = r.sound.ticks;
            counter = omega arith;
            frequency = r.sound.frequency;
            alive = r.sound.alive;
          })
          (λ x n l. l),
      refl,
    )
