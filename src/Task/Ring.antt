-- ===== src/Task/Ring.antt =====
-- The circular list of kernel/task/task.c as a sequence of tasks.
use frisca_os.Prelude.{
  ℕ, ◌≡◌, ◌≢◌, refl, sym, true, false, List, [], ◌∷◌, arith, ◌==◌, if◌then◌else◌,
}
use mathlib.Core.Path.{subst}
use frisca_os.Task.{Task, Scheduler, push_all, link_task}

-- From `a` on, `next` leads through the tasks to `b`; none of them is NULL.
abbrev pub Chain : (ℕ → Task) → ℕ → List ℕ → ℕ → Type 0
Chain task a [] b = a ≡ b
Chain task a (x ∷ xs) b = (a ≡ x) × (x ≢ 0) × Chain task (task x).next xs b

-- The run queue: a circle through the head.
abbrev pub Queue : Scheduler → List ℕ → Type 0
Queue s xs = Chain s.task s.task_list xs s.task_list

abbrev pub Absent : ℕ → List ℕ → Type 0
Absent a [] = Unit {0}
Absent a (x ∷ xs) = (x ≢ a) × Absent a xs

-- A change at a task that is not in a chain does not break it.
Chain-set :
    (xs : List ℕ) (a b c : ℕ) (t : Task) (task : ℕ → Task)
    → Absent c xs
    → Chain task a xs b
    → Chain (λ x. if x == c then t else task x) a xs b
Chain-set [] a b c t task out h = h
Chain-set (x ∷ xs) a b c t task (ne, out) (e, nonzero, rest) =
    let other : (x == c) ≡ false = ground arith in
    (
      e,
      nonzero,
      subst (λ y. Chain (λ x. if x == c then t else task x) y xs b) (rw other refl)
          (Chain-set xs (task x).next b c t task out rest),
    )

-- Only `next` makes a chain.
pub Chain-kept :
    (xs : List ℕ) (a b : ℕ) (task task' : ℕ → Task)
    → ((x : ℕ) → (task' x).next ≡ (task x).next)
    → Chain task a xs b
    → Chain task' a xs b
Chain-kept [] a b task task' same h = h
Chain-kept (x ∷ xs) a b task task' same (e, nonzero, rest) = (
  e,
  nonzero,
  subst (λ y. Chain task' y xs b) (sym (same x))
      (Chain-kept xs (task x).next b task task' same rest),
)

-- `create_task`, once it has memory for a task that is not NULL and not in the run queue, in which the
-- head stands once: the new task stands right behind the head, and the others follow as before.
pub link_task-Queue :
    (entry new_task stack : ℕ) (xs : List ℕ) (s : Scheduler)
    → Queue s (s.task_list ∷ xs)
    → Absent s.task_list xs
    → Absent new_task xs
    → s.task_list ≢ new_task
    → new_task ≢ 0
    → Queue (link_task entry new_task stack s) (s.task_list ∷ new_task ∷ xs)
unfolding link_task push_all
link_task-Queue entry new_task stack xs s (e, nonzero, rest) once fresh other some_task =
    let head : (s.task_list == s.task_list) ≡ true = ground arith in
    let new_is : (new_task == new_task) ≡ true = ground arith in
    let not_head : (new_task == s.task_list) ≡ false = ground arith in
    (
      refl,
      nonzero,
      (
        rw head refl,
        some_task,
        rw (not_head, new_is)
            (Chain-set xs (s.task s.task_list).next s.task_list s.task_list _ _ once
              (Chain-set xs (s.task s.task_list).next s.task_list new_task _ s.task fresh rest)),
      ),
    )
