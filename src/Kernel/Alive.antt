-- ===== src/Kernel/Alive.antt =====
-- The kernel of kernel/kernel.c after its start and any sequence of events.
use frisca_os.Prelude.{
  ℕ, ◌<◌, ◌≡◌, ◌≢◌, ◌⊎◌, inl, inr, refl, ap, sym, ◌∙◌, Option, none, some, List, [], ◌∷◌, ◌++◌,
  arith,
}
use mathlib.Core.Path.{subst}
use mathlib.Core.List.{append_assoc, append-nil}
use frisca_os.Prelude.Run.{ok, out_of_fuel, ok-injective}
use frisca_os.Command.Sound.{Roomy, Prefix-refl}
use frisca_os.Dispatch.{Places, tests}
use frisca_os.Dispatch.Choose.{choose}
use frisca_os.Idt.{Stubs, keyboard_handler_main}
use frisca_os.Keyboard.{handle_interrupt}
use frisca_os.Keyboard.Chars.{handle_interrupt_chars}
use frisca_os.Shell.Returns.{Answered}
use frisca_os.Task.Create.{AllPlaced}
use frisca_os.Task.Ring.{Queue}
use frisca_os.Kernel.{Kernel, kernel_main, type_char, keyboard_irq}
use frisca_os.Kernel.Boot.{Booted, Loaded, kernel_main-Booted}
use frisca_os.Kernel.Events.{Step, Reach, outside}
use frisca_os.Kernel.Delay.{delay_start-Running, delay_end-Running}
use frisca_os.Kernel.Running.{Running, Halted, renew, timer_irq-Running, count-Running}
use frisca_os.Kernel.Stays.{GoesOn, Since, type_char-ends, type_char-GoesOn}

-- No scancode gives NUL.
char_nonzero : (s : ℕ) {c : ℕ} (shift : _) → s < 256 → (handle_interrupt s shift).0 ≡ some c → c ≢ 0
char_nonzero s shift lt e =
    let chars = handle_interrupt_chars s shift lt e in λ z. omega (arith, chars)

module _ (p : Places) (main : ℕ) (h : Stubs) (idt_address : ℕ) (room : Roomy p) where
  -- The kernel as the keyboard's handler finds it.
  abbrev at_key : ℕ → List ℕ → List ℕ → Kernel → Kernel
  at_key scancode wakes status k = record (outside wakes status k) {
    shift_pressed = (handle_interrupt scancode k.shift_pressed).1;
    system = record (outside wakes status k).system { sent = k.system.sent ++ (0x20, 0x20) ∷ [] };
  }

  module _ (scancode : ℕ) (wakes status : List ℕ) (lt : scancode < 256) (k : Kernel)
      (r : Running p main h idt_address k) where
    abbrev at_key-Running : Running p main h idt_address (at_key scancode wakes status k)
    at_key-Running =
        renew p main h idt_address k r k.screen (handle_interrupt scancode k.shift_pressed).1
          (at_key scancode wakes status k).system r.line r.blocks r.files r.screen
          (record { count = r.typed.count; bounded = r.typed.bounded; bytes = r.typed.bytes }) r.nz
          (record {
            table = r.sound.table;
            memory = r.sound.memory;
            ticks = r.sound.ticks;
            counter = r.sound.counter;
            frequency = r.sound.frequency;
            alive = r.sound.alive;
          })
          (λ x n l. l)

    char_ends :
        (c : Option ℕ)
        → (handle_interrupt scancode k.shift_pressed).0 ≡ c
        → (type_char p c (at_key scancode wakes status k) ≡ out_of_fuel)
          ⊎ GoesOn p main h idt_address room k r (type_char p c (at_key scancode wakes status k))
    unfolding type_char
    char_ends none e =
        inr (at_key scancode wakes status k, refl, inl (at_key-Running, Prefix-refl r.files))
    char_ends (some c) e =
        type_char-ends p main h idt_address room (at_key scancode wakes status k) at_key-Running c
          (char_nonzero scancode k.shift_pressed lt e)

    char_goes_on :
        (c : Option ℕ)
        → (handle_interrupt scancode k.shift_pressed).0 ≡ c
        → Answered (choose tests r.line) (outside wakes status k).system
        → GoesOn p main h idt_address room k r (type_char p c (at_key scancode wakes status k))
    unfolding type_char
    char_goes_on none e a =
        (at_key scancode wakes status k, refl, inl (at_key-Running, Prefix-refl r.files))
    char_goes_on (some c) e a =
        type_char-GoesOn p main h idt_address room (at_key scancode wakes status k) at_key-Running c
          (char_nonzero scancode k.shift_pressed lt e) a

    -- A key, where the kernel runs: the handler goes on, or a command still waits.
    keyboard_irq-ends :
        (keyboard_irq p scancode (outside wakes status k) ≡ out_of_fuel)
        ⊎ GoesOn p main h idt_address room k r (keyboard_irq p scancode (outside wakes status k))
    unfolding keyboard_irq keyboard_handler_main
    keyboard_irq-ends = char_ends (handle_interrupt scancode k.shift_pressed).0 refl

    -- Whatever scancode comes while the kernel runs, the keyboard interrupt returns, and the
    -- kernel still runs, with every file as it was, or has a page fault or a division error; under
    -- the condition that, where the line is testdelay or reboot, what it waits for comes. The
    -- places are as in Roomy: the command buffer beside the file table, both below the heap, the
    -- string literals apart from the buffer, and more fuel than the heap has bytes.
    pub keyboard_irq-GoesOn :
        Answered (choose tests r.line) (outside wakes status k).system
        → GoesOn p main h idt_address room k r (keyboard_irq p scancode (outside wakes status k))
    unfolding keyboard_irq keyboard_handler_main
    keyboard_irq-GoesOn a = char_goes_on (handle_interrupt scancode k.shift_pressed).0 refl a

  same_files :
      {k after : Kernel} (r : Running p main h idt_address k)
      → (now : Running p main h idt_address after) × (now.files ≡ r.files)
      → Since p main h idt_address room r after
  same_files r (now, e) = inl (now, ([], e ∙ sym (append-nil r.files)))

  Step-Since :
      {k after : Kernel}
      → Step p main k after
      → (r : Running p main h idt_address k) → Since p main h idt_address room r after
  Step-Since {k} {after} (Step.key scancode wakes status lt alive e) r =
      elim (keyboard_irq-ends scancode wakes status lt k r) [
        | inl waits ↦ let never = sym waits ∙ e in absurd (cc)
        | inr (found, is, known) ↦
            subst (Since p main h idt_address room r) (ok-injective found after (sym is ∙ e)) known
      ]
  Step-Since {k} (Step.tick saved alive) r =
      same_files r (timer_irq-Running p main h idt_address saved k r)
  Step-Since {k} (Step.round alive other) r = same_files r (count-Running p main h idt_address k r)

  Step-trap : {k after : Kernel} → Step p main k after → k.system.trap ≡ none
  Step-trap (Step.key scancode wakes status lt alive e) = alive
  Step-trap (Step.tick saved alive) = alive
  Step-trap (Step.round alive other) = alive

  -- What is known of a kernel in which no exception has come goes on.
  Since-then :
      {start k after : Kernel} (r : Running p main h idt_address start)
      → Since p main h idt_address room r k
      → k.system.trap ≡ none
      → ((now : Running p main h idt_address k) → Since p main h idt_address room now after)
      → Since p main h idt_address room r after
  Since-then r (inl (running, (more, e))) alive on = elim (on running) [
    | inl (now, (yet_more, e')) ↦ inl (
      now,
      (more ++ yet_more, e' ∙ ap (λ fs. fs ++ yet_more) e ∙ append_assoc r.files more yet_more),
    )
    | inr halted ↦ inr halted
  ]
  Since-then r (inr halted) alive on = let never = sym alive ∙ halted.trap in absurd (cc)

  -- The same files at the start.
  same_start :
      {k u after : Kernel} (r : Running p main h idt_address k)
      → (q : (now : Running p main h idt_address u) × (now.files ≡ r.files))
      → Since p main h idt_address room q.0 after
      → Since p main h idt_address room r after
  same_start r (q, same) (inl (now, (more, e))) = inl (now, (more, e ∙ ap (λ fs. fs ++ more) same))
  same_start r (q, same) (inr halted) = inr halted

  -- Whatever keys, timer interrupts and rounds of the background task come while the kernel runs,
  -- in whatever order, also while testdelay waits: afterwards it runs, with every file as it was,
  -- at its place, and the new ones behind them; or it has had a page fault or a division error.
  -- The places are as in Roomy: the command buffer beside the file table, both below the heap, the
  -- string literals apart from the buffer, and more fuel than the heap has bytes.
  pub Reach-Since :
      {k after : Kernel}
      → Reach p main k after
      → (r : Running p main h idt_address k) → Since p main h idt_address room r after
  Reach-Since Reach.here r = inl (r, Prefix-refl r.files)
  Reach-Since (Reach.next path step) r =
      Since-then r (Reach-Since path r) (Step-trap step) (λ running. Step-Since step running)
  Reach-Since {k} (Reach.delay {k = at} {woken = woken} path scancode delays meanwhile woke) r =
      Since-then r (Reach-Since path r) delays.alive (λ running.
        let waits = delay_start-Running p main h idt_address room scancode at running in
        same_start running waits (
          Since-then waits.0 (Reach-Since meanwhile waits.0) woke.alive
            (λ now. same_files now (delay_end-Running p main h idt_address woken now))))

  -- The kernel runs, or has a page fault or a division error.
  abbrev pub Known : Kernel → Type 0
  Known k = Running p main h idt_address k ⊎ Halted p main h idt_address k

  module _ (background_task : ℕ) where
    abbrev pub Booted-Running :
        (k : Kernel)
        → Booted p h idt_address main background_task k
        → Running p main h idt_address k
    Booted-Running k b = record {
      line = [];
      blocks = b.blocks;
      files = [];
      background = b.background;
      typed = b.line;
      nz = tt;
      sound = record {
        table = b.table;
        memory = b.memory.valid;
        ticks = b.ticks;
        counter = b.counter;
        frequency = b.frequency;
        alive = b.alive;
      };
      screen = b.screen;
      tasks = record {
        queue = subst (λ a. Queue k.tasks (a ∷ b.background ∷ [])) b.head b.scheduled.queue;
        turn = inl b.running;
        placed =
            subst (λ a. AllPlaced p.heap_start b.blocks (a ∷ b.background ∷ [])) b.head
              (subst (λ q. AllPlaced q b.blocks (k.tasks.task_list ∷ b.background ∷ []))
                (ap (λ g. g.heap_start) (sym b.one_heap) ∙ b.table.heap.1) b.scheduled.placed);
        stack_room = b.stack_room;
        stack = b.stack;
        stack_live = b.stack_live;
      };
      gates = b.gates;
      mapped = b.mapped;
    }

    -- Once kernel_main has halted, started from the state in which the kernel is loaded, whatever
    -- keys, timer interrupts and rounds of the background task come, in whatever order, also while
    -- testdelay waits: the kernel runs, with all its parts sound, or has a page fault or a
    -- division error. The places are as in Roomy: the command buffer beside the file table, both
    -- below the heap, the string literals apart from the buffer, and more fuel than the heap has
    -- bytes.
    pub kernel_main-Known :
        (k booted after : Kernel)
        → Loaded p h idt_address main background_task k
        → kernel_main p h idt_address main background_task k ≡ ok booted
        → Reach p main booted after
        → Known after
    kernel_main-Known k booted after l e path =
        let (up, is, b) = kernel_main-Booted p h idt_address main background_task k l in
        elim (Reach-Since path (
          Booted-Running booted (
            subst (Booted p h idt_address main background_task)
              (ok-injective up booted (sym is ∙ e)) b))) [
                | inl (now, _) ↦ inl now
                | inr halted ↦ inr halted
              ]
