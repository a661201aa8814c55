-- ===== src/Kernel/Tests.antt =====
-- The kernel of kernel/kernel.c from its start, over static variables that are 0.
mod Events
use frisca_os.Prelude.{ℕ, ◌≡◌, refl, false, true, none, [], ◌∷◌, length-replicate, replicate, arith}
use frisca_os.Prelude.Ascii.{codes}
use frisca_os.Prelude.Run.{ok}
use frisca_os.Dispatch.{Places}
use frisca_os.Heap.Provider.{heap_allocator}
use frisca_os.Idt.{Entry, Stubs}
use frisca_os.Idt.Gates.{absent}
use frisca_os.Task.{TaskState}
use frisca_os.Vfs.{Node, empty_node}
use frisca_os.Vfs.Sample.{sample, sample_blocks, sample_files, sample-Represents}
use frisca_os.Kernel.{Kernel, kernel_main}
use frisca_os.Kernel.Boot.{Booted, Loaded, kernel_main-Booted}
use frisca_os.Kernel.Keys.{Types, line_after-typeable}
use mathlib.Core.Option.{some-injective}
use frisca_os.Keyboard.{handle_interrupt}
use frisca_os.Kernel.Typing.{NoEnter, Editing, line_after, press_all, press_all-Editing}
use frisca_os.Vfs.Files.{Outside}

abbrev places : Places
places = record {
  heap_start = 0x100000;
  table = 0x2000;
  command_buffer = 0x4000;
  literal = 0x1800;
  scratch = replicate 12 0;
  fuel = 300;
}

abbrev stubs : Stubs
stubs = record { isr_handler = λ v. 0x8000; irq0_handler = 0x12345; irq1_handler = 0x23456 }

abbrev statics : Kernel
statics = record {
  screen = record { buffer = replicate 2000 0; row = 0; column = 0; current_color = 0 };
  cpu = record {
    idt = replicate 256 absent;
    idtp = record { limit = 0; base = 0 };
    loaded = none;
    interrupts = false;
  };
  machine = record { words = λ a. 0; cr3 = 0; paging = false };
  tasks = record {
    current_task = 0;
    task_list = 0;
    next_pid = 1;
    task = λ a. record { id = 0; esp = 0; stack = 0; state = TaskState.ready; next = 0 };
    words = λ a. 0;
    heap = record { heap_start = 0; cell = λ a. none };
  };
  shift_pressed = false;
  system = record {
    buffer_idx = 0;
    files = record {
      bytes = λ a. 0;
      nodes = replicate 16 empty_node;
      file_count = 0;
      heap = record { heap_start = 0; cell = λ a. none };
    };
    timer = record { ticks = 0; target_freq = 0; need_reschedule = false };
    pmm = record { bitmap = replicate 128 0; max_blocks = 0; used_blocks = 0 };
    bg_counter = 0;
    wakes = [];
    status = [];
    sent = [];
    trap = none;
  };
}

statics-Loaded : Loaded places stubs 0x9000 0x3000 0x7000 statics
statics-Loaded = record {
  bitmap = length-replicate {A = ℕ} 128 0;
  cells = length-replicate {A = ℕ} 2000 0;
  gates = length-replicate {A = Entry} 256 absent;
  nodes = length-replicate {A = Node} 16 empty_node;
  stubs = (λ v. omega arith, omega arith, omega arith);
  some_task = omega arith;
  below_heap = omega arith;
  heap_start = refl;
  ticks = omega arith;
  counter = omega arith;
  alive = refl;
}

kernel_main-Booted_example :
    (after : Kernel) × (kernel_main places stubs 0x9000 0x3000 0x7000 statics ≡ ok after)
    × Booted places stubs 0x9000 0x3000 0x7000 after
kernel_main-Booted_example =
    kernel_main-Booted places stubs 0x9000 0x3000 0x7000 statics statics-Loaded

-- The sample table, with nothing typed.
abbrev prompt : Kernel
prompt = record statics { system = record statics.system { files = sample [] } }

prompt-Editing : Editing places prompt [] sample_blocks sample_files
prompt-Editing = record {
  line = record { count = refl; bounded = omega arith; bytes = λ i lt. absurd (omega arith) };
  screen = record {
    cells = length-replicate {A = ℕ} 2000 0;
    row_bound = omega arith;
    column_bound = omega arith;
  };
  table = sample-Represents [];
}

beside_table : Outside (heap_allocator 0x100000) 0x2000 0x4000 256
beside_table = record { apart = omega arith; below = omega arith }

l_s_back : NoEnter (0x26 ∷ 0x1f ∷ 0x0e ∷ []) false
unfolding handle_interrupt
l_s_back = (
  λ e. omega (arith, some-injective _ _ e),
  (λ e. omega (arith, some-injective _ _ e), (λ e. omega (arith, some-injective _ _ e), tt)),
)

-- The keys l, s and Backspace.
press_all-Editing_example :
    (after : Kernel) × (press_all places (0x26 ∷ 0x1f ∷ 0x0e ∷ []) prompt ≡ ok after)
    × Editing places after
        (line_after (0x26 ∷ 0x1f ∷ 0x0e ∷ []) false [])
        sample_blocks
        sample_files
press_all-Editing_example =
    press_all-Editing places beside_table (omega arith) sample_blocks sample_files
      (0x26 ∷ 0x1f ∷ 0x0e ∷ []) prompt [] prompt-Editing l_s_back

line_after-typeable_example : Types (codes "Cat") [] true
line_after-typeable_example = line_after-typeable (codes "Cat") [] true (omega arith) (omega arith)
