-- ===== src/Task.antt =====
-- kernel/task/task.c: the circular list of tasks and the round-robin scheduler.
-- `task a` is what stands in memory at the address `a`, read as a `task_t`; `words` is the rest of
-- memory, in words. The heap is the model of kernel/memory/heap.c. Of `switch_to_task`, which is
-- assembly (kernel/task/task_asm.asm), its effect on the tasks is here: the stack pointer that it stores
-- is an argument, and the one that it loads a result. What it pushes on the stack is not modelled.
pub mod Create
pub mod Frame
pub mod Ring
pub mod Start
mod Tests
pub mod Turns
use frisca_os.Prelude.{
  ℕ, zero, suc, ◌+◌, ◌-◌, ◌*◌, Option, none, some, List, [], ◌∷◌, ◌==◌, if◌then◌else◌,
}
use frisca_os.Prelude.Run.{Run, ok, ◌>>=◌}
use frisca_os.Prelude.Word.{add32, sub32}
use frisca_os.Heap.{Heap, kmalloc, kfree}

-- `task_state_t`
pub data TaskState : Type 0 where
  ready running terminated : TaskState

-- `task_t`
pub record Task : Type 0 where
  pub id : ℕ
  pub esp : ℕ
  pub stack : ℕ
  pub state : TaskState
  pub next : ℕ

-- The static variables, with memory.
pub record Scheduler : Type 0 where
  pub current_task : ℕ
  pub task_list : ℕ
  pub next_pid : ℕ
  pub task : ℕ → Task
  pub words : ℕ → ℕ
  pub heap : Heap

abbrev pub set_task : ℕ → Task → Scheduler → Scheduler
set_task a t s = record s { task = λ x. if x == a then t else s.task x }

-- `task_init`, with the address of `main_task`. Its `stack` keeps what it was.
unfoldable pub task_init : ℕ → Scheduler → Scheduler
task_init main s =
    let t = record (s.task main) { id = 0; esp = 0; state = TaskState.running; next = main } in
    record (set_task main t s) { current_task = main; task_list = main }

-- The words that `*(--top) = v` stores, one after the other.
pub push_all : List ℕ → ℕ → (ℕ → ℕ) → ℕ × (ℕ → ℕ)
push_all [] top words = (top, words)
push_all (v ∷ vs) top words = push_all vs (top - 4) (λ x. if x == top - 4 then v else words x)

-- What `create_task` does once both allocations have succeeded.
pub link_task : ℕ → ℕ → ℕ → Scheduler → Scheduler
unfolding push_all
link_task entry_point new_task stack s =
    let (top, words) =
      push_all (entry_point ∷ 0 ∷ 0 ∷ 0 ∷ 0 ∷ 0 ∷ 0 ∷ 0 ∷ 0x202 ∷ []) (stack + 4096) s.words in
    let t : Task = record {
      id = s.next_pid;
      esp = top;
      stack = stack;
      state = TaskState.ready;
      next = (s.task s.task_list).next;
    } in
    let linked = set_task new_task t (record s { words = words; next_pid = add32 s.next_pid 1 }) in
    set_task s.task_list (record (linked.task s.task_list) { next = new_task }) linked

-- sizeof(task_t): five fields of four bytes on the i386.
abbrev pub task_size : ℕ
task_size = 20

-- The second half of `create_task`, where the stack is or is not to be had.
with_stack : ℕ → ℕ → ℕ → Scheduler → Run (ℕ × Scheduler)
unfolding link_task
with_stack entry_point new_task stack s =
    if stack == 0
    then (do f ← kfree new_task s.heap; ok (0, record s { heap = f }))
    else ok (new_task, link_task entry_point new_task stack s)

-- `create_task`: the address of the task, 0 for NULL.
pub create_task : ℕ → Scheduler → Run (ℕ × Scheduler)
unfolding with_stack
create_task entry_point s = do
  a ← kmalloc task_size s.heap
  if a.0 == 0
      then ok (0, record s { heap = a.1 })
      else do b ← kmalloc 4096 a.1; with_stack entry_point a.0 b.0 (record s { heap = b.1 })

-- `*old_esp = esp` of `switch_to_task`.
abbrev pub save_esp : ℕ → ℕ → Scheduler → Scheduler
save_esp old_task saved s = set_task old_task (record (s.task old_task) { esp = saved }) s

-- `task_schedule`, where `switch_to_task` is going to store `saved`: the result is the stack pointer that
-- it loads, or none where it is not called.
pub task_schedule : ℕ → Scheduler → Scheduler × Option ℕ
task_schedule saved s =
    if s.current_task == 0
    then (s, none)
    else (let new = (s.task s.current_task).next in
        let t = record s { current_task = new } in
        if s.current_task == new
        then (t, none)
        else (save_esp s.current_task saved t, some (s.task new).esp))
