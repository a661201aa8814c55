-- ===== src/Task/Start.antt =====
-- The start of the scheduler in kernel/task/task.c: `task_init`, and a first `create_task` over a fresh heap.
use frisca_os.Prelude.{
  ℕ, ◌+◌, ◌<◌, ◌≡◌, ◌≢◌, inl, inr, refl, ap, sym, ◌∙◌, true, false, some, none, List, [], ◌∷◌, ◌==◌,
  arith,
}
use mathlib.Core.Path.{subst}
use mathlib.Core.Option.{some-injective}
use frisca_os.Heap.{header, round_up}
use frisca_os.Heap.Layout.{Block, block, Holds, Coalesced, first_fit, split}
use frisca_os.Heap.Allocate.{kmalloc_refines}
use frisca_os.Task.{Scheduler, task_init, task_size, create_task}
use frisca_os.Task.Create.{Scheduled, Spawned, spawned}

-- `task_init` with a task that is not NULL and lies below the payloads of the heap: it is alone in the
-- run queue, and runs.
pub task_init-Scheduled :
    (main : ℕ) (s : Scheduler) (bs : List Block)
    → Holds s.heap bs
    → Coalesced bs
    → main ≢ 0
    → main < s.heap.heap_start + header
    → Scheduled (task_init main s) bs []
unfolding task_init
task_init-Scheduled main s bs holds co some_task below =
    let it : (main == main) ≡ true = ground arith in
    record {
      holds = holds;
      coalesced = co;
      queue = (refl, some_task, rw it refl);
      once = tt;
      placed = (inl below, tt);
    }

first_room :
    (p : ℕ)
    → first_fit (round_up task_size) p (block 16372 true ∷ [])
      ≡ some (p + header, block 20 false ∷ block 16340 true ∷ [])
unfolding first_fit split
first_room p = refl

second_room :
    (p : ℕ) → first_fit (round_up 4096) p (block 20 false ∷ block 16340 true ∷ []) ≡ none → ⊥
unfolding first_fit split
second_room p = λ e. absurd (cc)

-- Over a fresh heap `create_task` has room, for the task and for its stack.
pub create_task_fresh :
    (entry : ℕ) (s : Scheduler) (xs : List ℕ)
    → Scheduled s (block 16372 true ∷ []) xs
    → Spawned entry s xs (create_task entry s)
create_task_fresh entry s xs ready =
    let p = s.heap.heap_start in
    elim (kmalloc_refines s.heap task_size (omega arith) ready.holds) [
      | inl (no_fit, stays) ↦ absurd (cc (first_room p, no_fit))
      | inr (a, cs, g, sv) ↦
          let is : block 20 false ∷ block 16340 true ∷ [] ≡ cs =
            ap (λ o. o.1) (some-injective _ _ (sym (first_room p) ∙ sv.fit)) in
          elim (kmalloc_refines g 4096 (omega arith) sv.holds) [
            | inl (no_fit, stays) ↦ absurd (
                second_room g.heap_start
                  (subst (λ bs. first_fit (round_up 4096) g.heap_start bs ≡ none) (sym is) no_fit))
            | inr (b, ds, f, sv') ↦
                spawned entry s (block 16372 true ∷ []) xs ready a cs g sv b ds f sv'
          ]
    ]
