-- ===== src/Task/Create.antt =====
-- `create_task` of kernel/task/task.c, with the heap: the new task in the run queue, or NULL.
use frisca_os.Prelude.{
  ℕ, ap, ◌∙◌, ◌+◌, ◌≤◌, ◌<◌, ◌≡◌, ◌⊎◌, inl, inr, refl, sym, false, some, List, [], ◌∷◌, ◌==◌, arith,
}
use mathlib.Core.Path.{subst}
use frisca_os.Prelude.Run.{Run, ok}
use frisca_os.Heap.{Heap, header, kmalloc, round_up}
use frisca_os.Heap.Layout.{Block, block, Holds, Live, Coalesced, NoFit, first_fit}
use frisca_os.Heap.Layout.FirstFit.{Gives, Live_bounds}
use frisca_os.Heap.Allocate.{Serves, NoFit-of_none, kmalloc_refines, round_up_lem}
use frisca_os.Heap.Free.{kfree-kmalloc}
use frisca_os.Task.{Scheduler, Task, link_task, task_size, create_task, with_stack}
use frisca_os.Task.Frame.{Frame, pushed-Frame, link_task-task}
use frisca_os.Task.Ring.{Queue, Absent, link_task-Queue}

-- A task stands below the payloads of the heap, or in one that is in use.
abbrev pub Placed : ℕ → List Block → ℕ → Type 0
Placed start bs x = (x < start + header) ⊎ ((n : ℕ) × (task_size ≤ n) × Live start bs x n)

abbrev pub AllPlaced : ℕ → List Block → List ℕ → Type 0
AllPlaced start bs [] = Unit {0}
AllPlaced start bs (x ∷ xs) = Placed start bs x × AllPlaced start bs xs

-- The heap holds the blocks, none of its neighbours both free, and the run queue is a circle of tasks
-- through the head, which stands in it once.
pub record Scheduled (s : Scheduler) (bs : List Block) (xs : List ℕ) : Type 0 where
  pub holds : Holds s.heap bs
  pub coalesced : Coalesced bs
  pub queue : Queue s (s.task_list ∷ xs)
  pub once : Absent s.task_list xs
  pub placed : AllPlaced s.heap.heap_start bs (s.task_list ∷ xs)

-- The new task `a` stands behind the head, on a stack of its own of 4096 bytes.
pub record Spawned (entry : ℕ) (s : Scheduler) (xs : List ℕ) (run : Run (ℕ × Scheduler))
    : Type 0 where
  pub a : ℕ
  pub after : Scheduler
  pub blocks : List Block
  pub room : ℕ
  pub returns : run ≡ ok (a, after)
  pub scheduled : Scheduled after blocks (a ∷ xs)
  pub same_head : after.task_list ≡ s.task_list
  pub same_current : after.current_task ≡ s.current_task
  pub same_start : after.heap.heap_start ≡ s.heap.heap_start
  pub stack_room : 4096 ≤ room
  pub stack_live : Live after.heap.heap_start blocks (after.task a).stack room
  pub frame : Frame entry (after.task a).esp (after.task a).stack after.words

-- The three ways in which `create_task` ends: NULL where no free block has the 20 bytes of a task; NULL
-- where one has, and none has 4096 bytes behind it in the blocks `cs` that first fit then leaves; and
-- the task.
abbrev pub Creates : ℕ → Scheduler → List Block → List ℕ → Run (ℕ × Scheduler) → Type 0
Creates entry s bs xs run =
    (NoFit 20 bs × (run ≡ ok (0, s)))
    ⊎ (((a : ℕ) × (cs : List Block) × (g : Heap) × (first_fit 20 s.heap.heap_start bs
            ≡ some (a, cs))
          × NoFit 4096 cs
          × (run ≡ ok (0, record s { heap = g }))
          × Holds g bs)
        ⊎ Spawned entry s xs run)

Coalesced-used : (n : ℕ) (bs : List Block) → Coalesced bs → Coalesced (block n false ∷ bs)
Coalesced-used n [] co = tt
Coalesced-used n (b ∷ bs) co = (refl, co)

Coalesced-tail : (b : Block) (bs : List Block) → Coalesced (b ∷ bs) → Coalesced bs
Coalesced-tail b [] co = tt
Coalesced-tail b (c ∷ cs) co = co.1

Gives-Coalesced :
    (size p a : ℕ) (bs cs : List Block) → Gives size p bs a cs → Coalesced bs → Coalesced cs
Gives-Coalesced size p a bs cs g co =
    Coalesced-tail (block 0 false) cs (g.coalesced (block 0 false) (Coalesced-used 0 bs co))

pub AllPlaced-kept :
    (p q : ℕ) (bs cs : List Block) (xs : List ℕ)
    → q ≡ p
    → ((x n : ℕ) → Live p bs x n → Live p cs x n)
    → AllPlaced p bs xs
    → AllPlaced q cs xs
AllPlaced-kept p q bs cs [] same kept placed = tt
AllPlaced-kept p q bs cs (x ∷ xs) same kept (here, rest) = (
  elim here [
    | inl below ↦ inl (omega arith)
    | inr (n, le, l) ↦ inr (n, le, subst (λ r. Live r cs x n) (sym same) (kept x n l))
  ],
  AllPlaced-kept p q bs cs xs same kept rest,
)

AllPlaced-fresh :
    (p a : ℕ) (bs : List Block) (xs : List ℕ)
    → p + header ≤ a
    → ((n : ℕ) → ¬ (Live p bs a n))
    → AllPlaced p bs xs
    → Absent a xs
AllPlaced-fresh p a bs [] above fresh placed = tt
AllPlaced-fresh p a bs (x ∷ xs) above fresh (here, rest) = (
  λ e. elim here [
    | inl below ↦ omega arith
    | inr (n, le, l) ↦ fresh n (subst (λ y. Live p bs y n) e l)
  ],
  AllPlaced-fresh p a bs xs above fresh rest,
)

task_rounded : round_up task_size ≡ 20
task_rounded = omega (arith, round_up_lem task_size)

stack_rounded : round_up 4096 ≡ 4096
stack_rounded = omega (arith, round_up_lem 4096)

module _ (entry : ℕ) (s : Scheduler) (bs : List Block) (xs : List ℕ)
    (ready : Scheduled s bs xs) where
  -- The first allocation has given `a`.
  module _ (a : ℕ) (cs : List Block) (g : Heap) (sv : Serves task_size s.heap bs a cs g) where
    above : s.heap.heap_start + header ≤ a
    above = (Live_bounds s.heap.heap_start cs a sv.gives.got sv.gives.live).0

    cs-Coalesced : Coalesced cs
    cs-Coalesced =
        Gives-Coalesced (round_up task_size) s.heap.heap_start a bs cs sv.gives ready.coalesced

    -- Without a stack the task is given back.
    no_stack :
        kmalloc 4096 g ≡ ok (0, g)
        → (h : Heap) × (create_task entry s ≡ ok (0, record s { heap = h })) × Holds h bs
    unfolding create_task with_stack
    no_stack stays =
        let back =
          kfree-kmalloc task_size a g ready.holds ready.coalesced (omega arith) sv.returns
            (omega (arith, above)) in
        let some_task : (a == 0) ≡ false = ground (arith, above) in
        (back.0, rw (sv.returns, some_task, stays, back.1) refl, back.2)

    module _ (b : ℕ) (ds : List Block) (f : Heap) (sv' : Serves 4096 g cs b ds f) where
      start_kept : f.heap_start ≡ s.heap.heap_start
      start_kept = sv'.same_start ∙ sv.same_start

      kept : (x n : ℕ) → Live s.heap.heap_start bs x n → Live s.heap.heap_start ds x n
      kept x n l =
          subst (λ p. Live p ds x n) sv.same_start
            (sv'.gives.kept x n
              (subst (λ p. Live p cs x n) (sym sv.same_start) (sv.gives.kept x n l)))

      task_kept : Live s.heap.heap_start ds a sv.gives.got
      task_kept =
          subst (λ p. Live p ds a sv.gives.got) sv.same_start
            (sv'.gives.kept a sv.gives.got
              (subst (λ p. Live p cs a sv.gives.got) (sym sv.same_start) sv.gives.live))

      fresh : Absent a (s.task_list ∷ xs)
      fresh =
          AllPlaced-fresh s.heap.heap_start a bs (s.task_list ∷ xs) above sv.gives.fresh
            ready.placed

      after : Scheduler
      after = link_task entry a b (record s { heap = f })

      after-Scheduled : Scheduled after ds (a ∷ xs)
      unfolding after link_task
      after-Scheduled =
          let old =
            AllPlaced-kept s.heap.heap_start f.heap_start bs ds (s.task_list ∷ xs) start_kept kept
              ready.placed in
          record {
            holds = sv'.holds;
            coalesced = Gives-Coalesced (round_up 4096) g.heap_start b cs ds sv'.gives cs-Coalesced;
            queue =
                link_task-Queue entry a b xs (record s { heap = f }) ready.queue ready.once fresh.1
                  fresh.0 (omega (arith, above));
            once = (λ e. fresh.0 (sym e), ready.once);
            placed = (
              old.0,
              (
                inr (
                  sv.gives.got,
                  omega (arith, sv.gives.enough, round_up_lem task_size),
                  subst (λ p. Live p ds a sv.gives.got) (sym start_kept) task_kept,
                ),
                old.1,
              ),
            );
          }

      pub spawned : Spawned entry s xs (create_task entry s)
      unfolding create_task with_stack after link_task
      spawned =
          let some_task : (a == 0) ≡ false = ground (arith, above) in
          let bounds = Live_bounds g.heap_start ds b sv'.gives.got sv'.gives.live in
          let some_stack : (b == 0) ≡ false = ground (arith, bounds.0) in
          let task = link_task-task entry a b (record s { heap = f }) fresh.0 in
          record {
            a = a;
            after = after;
            blocks = ds;
            room = sv'.gives.got;
            returns = rw (sv.returns, some_task, sv'.returns, some_stack) refl;
            scheduled = after-Scheduled;
            same_head = refl;
            same_current = refl;
            same_start = start_kept;
            stack_room = omega (arith, sv'.gives.enough, round_up_lem 4096);
            stack_live =
                subst (λ (o : ℕ × ℕ). Live o.0 ds o.1 sv'.gives.got)
                  (λ i. (sym sv'.same_start i, sym (ap (λ t. t.stack) task) i)) sv'.gives.live;
            frame =
                subst (λ (t : Task). Frame entry t.esp t.stack after.words) (sym task)
                  (pushed-Frame entry b s.words);
          }

  -- create_task over a heap and a run queue: NULL and no change where no free block has the 20
  -- bytes of a task; NULL, and the heap holds the blocks that it held, where one has, and after
  -- that none has the 4096 bytes of the stack; else the new task stands behind the head, and its
  -- stack is in use and ends with the frame that starts the entry point.
  pub create_task-Creates : Creates entry s bs xs (create_task entry s)
  unfolding create_task
  create_task-Creates = elim (kmalloc_refines s.heap task_size (omega arith) ready.holds) [
    | inl (no_fit, stays) ↦
        inl (NoFit-of_none 20 s.heap.heap_start bs (rw (← task_rounded) no_fit), rw stays refl)
    | inr (a, cs, g, sv) ↦ elim (kmalloc_refines g 4096 (omega arith) sv.holds) [
      | inl (no_fit, stays) ↦ inr (
          inl (
            a,
            cs,
            (no_stack a cs g sv stays).0,
            rw (← task_rounded) sv.fit,
            NoFit-of_none 4096 g.heap_start cs (rw (← stack_rounded) no_fit),
            (no_stack a cs g sv stays).1,
            (no_stack a cs g sv stays).2,
          ))
      | inr (b, ds, f, sv') ↦ inr (inr (spawned a cs g sv b ds f sv'))
    ]
  ]
