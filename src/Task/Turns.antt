-- ===== src/Task/Turns.antt =====
-- The turns that the tasks of kernel/task/task.c take.
use frisca_os.Prelude.{
  ℕ, zero, suc, ◌≡◌, ◌≢◌, refl, ap, sym, ◌∙◌, true, false, Option, some, List, [], ◌∷◌, length,
  arith, ◌==◌, if◌then◌else◌, ℕ_discrete,
}
use mathlib.Core.Path.{subst}
use frisca_os.Task.{Task, Scheduler, save_esp, task_schedule}
use frisca_os.Task.Ring.{Chain, Chain-kept, Queue, Absent}

-- What a call does to any queue: the next task is the current one, and no task leads elsewhere or has
-- another stack than before.
pub record Passes (s t : Scheduler) : Type 0 where
  pub current : t.current_task ≡ (s.task s.current_task).next
  pub same_next : (x : ℕ) → (t.task x).next ≡ (s.task x).next
  pub same_stack : (x : ℕ) → (t.task x).stack ≡ (s.task x).stack
  pub same_list : t.task_list ≡ s.task_list

save_esp-next : (a e x : ℕ) (s : Scheduler) → ((save_esp a e s).task x).next ≡ (s.task x).next
save_esp-next a e x s = elim (ℕ_discrete x a) [
  | yes is ↦ let same : (x == a) ≡ true = ground arith in rw (same, is) refl
  | no ne ↦ let other : (x == a) ≡ false = ground arith in rw other refl
]

save_esp-stack : (a e x : ℕ) (s : Scheduler) → ((save_esp a e s).task x).stack ≡ (s.task x).stack
save_esp-stack a e x s = elim (ℕ_discrete x a) [
  | yes is ↦ let same : (x == a) ≡ true = ground arith in rw (same, is) refl
  | no ne ↦ let other : (x == a) ≡ false = ground arith in rw other refl
]

-- With another task next, `esp` is saved and the other's is loaded.
switches :
    (saved a b : ℕ) (s : Scheduler)
    → s.current_task ≡ a
    → (s.task a).next ≡ b
    → a ≢ 0
    → a ≢ b
    → task_schedule saved s
      ≡ (save_esp a saved (record s { current_task = b }), some (s.task b).esp)
unfolding task_schedule
switches saved a b s is leads some_task ne =
    let not_null : (a == 0) ≡ false = ground arith in
    let others : (a == b) ≡ false = ground arith in rw (is, leads, not_null, others) refl

pub task_schedule-Passes :
    (saved : ℕ) (s : Scheduler) → s.current_task ≢ 0 → Passes s (task_schedule saved s).0
unfolding task_schedule
task_schedule-Passes saved s ne = elim (ℕ_discrete s.current_task (s.task s.current_task).next) [
  | yes e ↦
      let some_task : (s.current_task == 0) ≡ false = ground arith in
      let alone : (s.current_task == (s.task s.current_task).next) ≡ true = ground arith in
      let t = record s { current_task = (s.task s.current_task).next } in
      let same : t ≡ (task_schedule saved s).0 = rw (some_task, alone) refl in
      subst (Passes s) same
        (record { current = refl; same_next = λ x. refl; same_stack = λ x. refl; same_list = refl })
  | no n ↦
      let t = record s { current_task = (s.task s.current_task).next } in
      let run = switches saved s.current_task (s.task s.current_task).next s refl refl ne n in
      subst (Passes s) (sym (ap (λ r. r.0) run)) (record {
        current = refl;
        same_next = λ x. save_esp-next s.current_task saved x t;
        same_stack = λ x. save_esp-stack s.current_task saved x t;
        same_list = refl;
      })
]

-- `task_schedule`, again and again: at each call, the task that runs then, and the stack pointer that is
-- loaded. A task `a` is left with the stack pointer `saved a`.
unfoldable pub turns : ℕ → (ℕ → ℕ) → Scheduler → List (ℕ × Option ℕ) × Scheduler
turns zero saved s = ([], s)
turns (suc n) saved s =
    let r = task_schedule (saved s.current_task) s in
    let rest = turns n saved r.0 in ((r.0.current_task, r.1) ∷ rest.0, rest.1)

abbrev pub Distinct : List ℕ → Type 0
Distinct [] = Unit {0}
Distinct (x ∷ xs) = Absent x xs × Distinct xs

-- The tasks with the stack pointers that they were left with, and then `last`.
abbrev pub resumed : (ℕ → Task) → List ℕ → ℕ × Option ℕ → List (ℕ × Option ℕ)
resumed task [] last = last ∷ []
resumed task (x ∷ xs) last = (x, some (task x).esp) ∷ resumed task xs last

-- A task, once those of a list have been left.
abbrev pub left : (ℕ → ℕ) → List ℕ → ℕ → Task → Task
left saved [] a t = t
left saved (x ∷ xs) a t = if a == x then record t { esp = saved a } else left saved xs a t

left-Absent : (saved : ℕ → ℕ) (xs : List ℕ) (a : ℕ) (t : Task) → Absent a xs → left saved xs a t ≡ t
left-Absent saved [] a t out = refl
left-Absent saved (x ∷ xs) a t (ne, out) =
    let other : (a == x) ≡ false = ground arith in rw other (left-Absent saved xs a t out)

resumed-save_esp :
    (xs : List ℕ) (a e : ℕ) (s : Scheduler) (last : ℕ × Option ℕ)
    → Absent a xs
    → resumed (save_esp a e s).task xs last ≡ resumed s.task xs last
resumed-save_esp [] a e s last out = refl
resumed-save_esp (x ∷ xs) a e s last (ne, out) =
    let other : (x == a) ≡ false = ground arith in
    rw (other, resumed-save_esp xs a e s last out) refl

-- What calls that leave each of `xs`, one after the other, do: the tasks of `order` run, each with the
-- stack pointer that stands there, `last` is the current task then, and nothing else has changed.
pub record Rounds (saved : ℕ → ℕ) (xs : List ℕ) (order : List (ℕ × Option ℕ)) (last : ℕ)
    (s : Scheduler) (r : List (ℕ × Option ℕ) × Scheduler) : Type 0 where
  pub in_order : r.0 ≡ order
  pub tasks : (a : ℕ) → r.1.task a ≡ left saved xs a (s.task a)
  pub rest : record r.1 { task = s.task } ≡ record s { current_task = last }

left-save_esp :
    (saved : ℕ → ℕ) (x : ℕ) (xs : List ℕ) (s : Scheduler) (a : ℕ)
    → Absent x xs
    → left saved xs a ((save_esp x (saved x) s).task a) ≡ left saved (x ∷ xs) a (s.task a)
left-save_esp saved x xs s a out = elim (ℕ_discrete a x) [
  | yes is ↦
      let same : (x == x) ≡ true = ground arith in
      rw (is, same) (left-Absent saved xs x (record (s.task x) { esp = saved x }) out)
  | no ne ↦ let other : (a == x) ≡ false = ground arith in rw other refl
]

-- The scheduler once `x` is left for `y`.
abbrev switched : (ℕ → ℕ) → ℕ → ℕ → Scheduler → Scheduler
switched saved x y s = save_esp x (saved x) (record s { current_task = y })

Rounds-step :
    (saved : ℕ → ℕ) (x y : ℕ) (xs : List ℕ) (order : List (ℕ × Option ℕ)) (b n : ℕ) (s : Scheduler)
    → s.current_task ≡ x
    → (s.task x).next ≡ y
    → x ≢ 0
    → x ≢ y
    → Absent x xs
    → Rounds saved xs order b (switched saved x y s) (turns n saved (switched saved x y s))
    → Rounds saved (x ∷ xs) ((y, some (s.task y).esp) ∷ order) b s (turns (suc n) saved s)
unfolding turns
Rounds-step saved x y xs order b n s is leads some_task ne out h =
    let u = switched saved x y s in
    let one : task_schedule (saved s.current_task) s ≡ (u, some (s.task y).esp) =
      ap (λ c. task_schedule (saved c) s) is ∙ switches (saved x) x y s is leads some_task ne in
    let rest = turns n saved u in
    let all : turns (suc n) saved s ≡ ((y, some (s.task y).esp) ∷ rest.0, rest.1) =
      ap
        (λ (r : Scheduler × Option ℕ).
          ((r.0.current_task, r.1) ∷ (turns n saved r.0).0, (turns n saved r.0).1))
        one in
    subst (Rounds saved (x ∷ xs) ((y, some (s.task y).esp) ∷ order) b s) (sym all) (record {
      in_order = ap (λ l. (y, some (s.task y).esp) ∷ l) h.in_order;
      tasks = λ a. h.tasks a ∙ left-save_esp saved x xs s a out;
      rest = ap (λ (q : Scheduler). record q { task = s.task }) h.rest;
    })

-- From the current task through the others to `b`, which is none of them.
Rounds-Chain :
    (saved : ℕ → ℕ) (x : ℕ) (xs : List ℕ) (b e : ℕ) (s : Scheduler)
    → s.current_task ≡ x
    → Chain s.task x (x ∷ xs) b
    → Distinct (x ∷ xs)
    → Absent b (x ∷ xs)
    → (s.task b).esp ≡ e
    → Rounds saved (x ∷ xs) (resumed s.task xs (b, some e)) b s (turns (suc (length xs)) saved s)
unfolding turns
Rounds-Chain saved x [] b e s is (_, some_task, leads) distinct (other, _) at =
    let u = switched saved x b s in
    subst (λ e'. Rounds saved (x ∷ []) ((b, some e') ∷ []) b s (turns 1 saved s)) at
      (Rounds-step saved x b [] [] b 0 s is leads some_task other tt
        (record { in_order = refl; tasks = λ a. refl; rest = refl }))
Rounds-Chain saved x (y ∷ ys) b e s is (_, some_task, (leads, some_next, rest)) (out, distinct)
      (other, others) at =
    let u = switched saved x y s in
    let b_other : (b == x) ≡ false = ground arith in
    let chain : Chain u.task y (y ∷ ys) b =
      Chain-kept (y ∷ ys) y b s.task u.task
        (λ a. save_esp-next x (saved x) a (record s { current_task = y }))
        (refl, some_next, rest) in
    let h = Rounds-Chain saved y ys b e u refl chain distinct others (rw b_other at) in
    let same = resumed-save_esp ys x (saved x) (record s { current_task = y }) (b, some e) out.1 in
    Rounds-step saved x y (y ∷ ys) (resumed s.task ys (b, some e)) b (suc (length ys)) s is leads
      some_task (λ z. out.0 (sym z)) out
      (subst (λ l. Rounds saved (y ∷ ys) l b u (turns (suc (length ys)) saved u)) same h)

-- Round robin: over a run queue of two tasks or more, all distinct, whose head is the current
-- task, as many calls of task_schedule as there are tasks. The tasks behind the head run in the
-- order of the queue, each from the stack pointer that it was left with, and then the head, from
-- the one that the first call has stored for it. Each task keeps the stack pointer with which it
-- was left, and nothing else has changed.
pub turns-Queue :
    (saved : ℕ → ℕ) (x y : ℕ) (ys : List ℕ) (s : Scheduler)
    → Queue s (x ∷ y ∷ ys)
    → Distinct (x ∷ y ∷ ys)
    → s.current_task ≡ s.task_list
    → Rounds saved
        (x ∷ y ∷ ys)
        (resumed s.task (y ∷ ys) (x, some (saved x)))
        x
        s
        (turns (suc (suc (length ys))) saved s)
turns-Queue saved x y ys s (head, some_task, (leads, some_next, rest)) (out, distinct) at_head =
    let u = switched saved x y s in
    let same : (x == x) ≡ true = ground arith in
    let back : Chain s.task (s.task y).next ys x =
      subst (λ z. Chain s.task (s.task y).next ys z) head rest in
    let chain : Chain u.task y (y ∷ ys) x =
      Chain-kept (y ∷ ys) y x s.task u.task
        (λ a. save_esp-next x (saved x) a (record s { current_task = y }))
        (refl, some_next, back) in
    let h = Rounds-Chain saved y ys x (saved x) u refl chain distinct out (rw same refl) in
    let kept =
      resumed-save_esp ys x (saved x) (record s { current_task = y }) (x, some (saved x)) out.1 in
    Rounds-step saved x y (y ∷ ys) (resumed s.task ys (x, some (saved x))) x (suc (length ys)) s
      (at_head ∙ head) leads some_task (λ z. out.0 (sym z)) out
      (subst (λ l. Rounds saved (y ∷ ys) l x u (turns (suc (length ys)) saved u)) kept h)
