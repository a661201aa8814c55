-- ===== src/Task/Tests.antt =====
-- Three tasks in the run queue of kernel/task/task.c.
use frisca_os.Prelude.{ℕ, ◌+◌, refl, inl, true, some, none, [], ◌∷◌, arith, ◌==◌, if◌then◌else◌}
use frisca_os.Task.{Task, TaskState, Scheduler, create_task}
use frisca_os.Heap.{node}
use frisca_os.Heap.Layout.{block}
use frisca_os.Task.Create.{Scheduled, Creates, create_task-Creates}
use frisca_os.Task.Ring.{Queue}
use frisca_os.Task.Turns.{Rounds, turns, turns-Queue}

abbrev leads_to : ℕ → Task
leads_to a = record { id = a; esp = 0; stack = 0; state = TaskState.ready; next = a }

-- The main task at 100, and two others at 200 and 300.
abbrev three : Scheduler
three = record {
  current_task = 100;
  task_list = 100;
  next_pid = 3;
  task = λ a. leads_to (if a == 100 then 200 else if a == 200 then 300 else 100);
  words = λ a. 0;
  heap = record { heap_start = 0; cell = λ a. none };
}

three-Queue : Queue three (100 ∷ 200 ∷ 300 ∷ [])
three-Queue = (refl, omega arith, (refl, omega arith, (refl, omega arith, refl)))

turns-Queue_example :
    Rounds
      (λ a. a + 1)
      (100 ∷ 200 ∷ 300 ∷ [])
      ((200, some 0) ∷ (300, some 0) ∷ (100, some 101) ∷ [])
      100
      three
      (turns 3 (λ a. a + 1) three)
turns-Queue_example =
    turns-Queue (λ a. a + 1) 100 200 (300 ∷ []) three three-Queue (omega arith) refl

-- The three tasks below a fresh heap at 1 MB.
abbrev with_heap : Scheduler
with_heap = record three {
  heap = record {
    heap_start = 0x100000;
    cell = λ a. if a == 0x100000 then some (node 16372 true 0) else none;
  };
}

with_heap-Scheduled : Scheduled with_heap (block 16372 true ∷ []) (200 ∷ 300 ∷ [])
with_heap-Scheduled = record {
  holds = record {
    chain = (refl, tt);
    filled = refl;
    words = (refl, tt);
    start_word = refl;
    above_null = omega arith;
    below_top = omega arith;
  };
  coalesced = tt;
  queue = three-Queue;
  once = omega arith;
  placed = (inl (omega arith), (inl (omega arith), (inl (omega arith), tt)));
}

create_task-Creates_example :
    Creates 0x5000 with_heap (block 16372 true ∷ []) (200 ∷ 300 ∷ []) (create_task 0x5000 with_heap)
create_task-Creates_example =
    create_task-Creates 0x5000 with_heap (block 16372 true ∷ []) (200 ∷ 300 ∷ [])
      with_heap-Scheduled
