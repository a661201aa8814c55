-- ===== src/Kernel/Tests/Events.antt =====
-- Events after the start of kernel/kernel.c, over static variables that are 0.
use frisca_os.Prelude.{ℕ, ◌≡◌, inl, refl, [], length-replicate, arith}
use frisca_os.Prelude.Run.{ok}
use frisca_os.Command.Sound.{Roomy}
use frisca_os.Dispatch.{Places}
use frisca_os.Dispatch.Choose.{choose}
use frisca_os.Kernel.{Kernel, kernel_main, keyboard_irq}
use frisca_os.Kernel.Boot.{Booted, Loaded, kernel_main-Booted}
use frisca_os.Kernel.Events.{Step, Reach, outside}
use frisca_os.Kernel.Running.{Running}
use frisca_os.Kernel.Stays.{GoesOn, Since}
use frisca_os.Kernel.Alive.{
  Known, Reach-Since, Booted-Running, keyboard_irq-GoesOn, kernel_main-Known,
}
use frisca_os.Kernel.Tests.{places, stubs, statics, statics-Loaded}

-- Fuel for a string as long as the heap.
abbrev roomy : Places
roomy = record places { fuel = 20000 }

roomy-Roomy : Roomy roomy
roomy-Roomy = record {
  scratch = length-replicate {A = ℕ} 12 0;
  beside = record { apart = omega arith; below = omega arith };
  below = omega arith;
  literals = inl (omega arith);
  fuel = omega arith;
}

roomy-Loaded : Loaded roomy stubs 0x9000 0x3000 0x7000 statics
roomy-Loaded = record {
  bitmap = statics-Loaded.bitmap;
  cells = statics-Loaded.cells;
  gates = statics-Loaded.gates;
  nodes = statics-Loaded.nodes;
  stubs = statics-Loaded.stubs;
  some_task = statics-Loaded.some_task;
  below_heap = statics-Loaded.below_heap;
  heap_start = refl;
  ticks = statics-Loaded.ticks;
  counter = statics-Loaded.counter;
  alive = refl;
}

booted :
    (after : Kernel) × (kernel_main roomy stubs 0x9000 0x3000 0x7000 statics ≡ ok after)
    × Booted roomy stubs 0x9000 0x3000 0x7000 after
booted = kernel_main-Booted roomy stubs 0x9000 0x3000 0x7000 statics roomy-Loaded

abbrev booted-Running : Running roomy 0x3000 stubs 0x9000 booted.0
booted-Running = Booted-Running roomy 0x3000 stubs 0x9000 roomy-Roomy 0x7000 booted.0 booted.2

-- The key l.
keyboard_irq-GoesOn_example :
    GoesOn roomy 0x3000 stubs 0x9000 roomy-Roomy booted.0 booted-Running
      (keyboard_irq roomy 0x26 (outside [] [] booted.0))
unfolding choose
keyboard_irq-GoesOn_example =
    keyboard_irq-GoesOn roomy 0x3000 stubs 0x9000 roomy-Roomy 0x26 [] [] (omega arith) booted.0
      booted-Running ((λ e. absurd (cc)), (λ e. absurd (cc)))

l_key :
    GoesOn roomy 0x3000 stubs 0x9000 roomy-Roomy booted.0 booted-Running
      (keyboard_irq roomy 0x26 (outside [] [] booted.0))
unfolding choose
l_key =
    keyboard_irq-GoesOn roomy 0x3000 stubs 0x9000 roomy-Roomy 0x26 [] [] (omega arith) booted.0
      booted-Running ((λ e. absurd (cc)), (λ e. absurd (cc)))

kernel_main-Known_example : Known roomy 0x3000 stubs 0x9000 roomy-Roomy l_key.0
kernel_main-Known_example =
    kernel_main-Known roomy 0x3000 stubs 0x9000 roomy-Roomy 0x7000 statics booted.0 l_key.0
      roomy-Loaded booted.1
      (Reach.next Reach.here (Step.key 0x26 [] [] (omega arith) booted.2.alive l_key.1))

Reach-Since_example : Since roomy 0x3000 stubs 0x9000 roomy-Roomy booted-Running l_key.0
Reach-Since_example =
    Reach-Since roomy 0x3000 stubs 0x9000 roomy-Roomy
      (Reach.next Reach.here (Step.key 0x26 [] [] (omega arith) booted.2.alive l_key.1))
      booted-Running
