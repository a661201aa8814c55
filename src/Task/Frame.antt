-- ===== src/Task/Frame.antt =====
-- What `create_task` of kernel/task/task.c puts on the stack of a new task.
use frisca_os.Prelude.{
  ℕ, zero, suc, ap, ◌∙◌, length, get_or, ◌+◌, ◌-◌, ◌*◌, ◌≤◌, ◌<◌, ◌≡◌, ◌≢◌, refl, true, false, List,
  [], ◌∷◌, ◌==◌, arith, if◌then◌else◌,
}
use frisca_os.Prelude.Tables.{every, every_sound}
use frisca_os.Task.{Scheduler, TaskState, push_all, link_task}

-- The frame at `esp` that `switch_to_task` restores: the flags with interrupts on, seven words of 0 for
-- the registers, and the entry point as the address to return to, at the upper end of the stack.
pub record Frame (entry esp stack : ℕ) (words : ℕ → ℕ) : Type 0 where
  pub at_end : esp + 36 ≡ stack + 4096
  pub flags : words esp ≡ 0x202
  pub registers : (i : ℕ) → i < 7 → words (esp + 4 + 4 * i) ≡ 0
  pub returns_to : words (esp + 32) ≡ entry

-- The words that are pushed: from `top` down, and nothing changes from `top` up.
push_all_out :
    (vs : List ℕ) (top x : ℕ) (words : ℕ → ℕ)
    → length vs * 4 ≤ top
    → top ≤ x
    → (push_all vs top words).1 x ≡ words x
unfolding push_all
push_all_out [] top x words fits above = refl
push_all_out (v ∷ vs) top x words fits above =
    let other : (x == top - 4) ≡ false = ground arith in
    push_all_out vs (top - 4) x (λ y. if y == top - 4 then v else words y) (omega arith)
      (omega arith)
    ∙ rw other refl

push_all_end :
    (vs : List ℕ) (top : ℕ) (words : ℕ → ℕ)
    → length vs * 4 ≤ top
    → (push_all vs top words).0 + length vs * 4 ≡ top
unfolding push_all
push_all_end [] top words fits = omega arith
push_all_end (v ∷ vs) top words fits =
    omega
      (arith, push_all_end vs (top - 4) (λ y. if y == top - 4 then v else words y) (omega arith))

push_all_in :
    (vs : List ℕ) (top i : ℕ) (words : ℕ → ℕ)
    → length vs * 4 ≤ top
    → i < length vs
    → (push_all vs top words).1 (top - 4 - 4 * i) ≡ get_or vs i 0
unfolding push_all
push_all_in [] top i words fits lt = absurd (omega arith)
push_all_in (v ∷ vs) top zero words fits lt =
    let here : (top - 4 - 4 * 0 == top - 4) ≡ true = ground arith in
    push_all_out vs (top - 4) (top - 4 - 4 * 0) (λ y. if y == top - 4 then v else words y)
      (omega arith) (omega arith)
    ∙ rw here refl
push_all_in (v ∷ vs) top (suc i) words fits lt =
    let at : top - 4 - 4 * suc i ≡ top - 4 - 4 - 4 * i = omega arith in
    let words' : ℕ → ℕ = λ y. if y == top - 4 then v else words y in
    ap (push_all vs (top - 4) words').1 at
    ∙ push_all_in vs (top - 4) i words' (omega arith) (omega arith)

-- What `create_task` pushes.
abbrev pub frame_words : ℕ → List ℕ
frame_words entry = entry ∷ 0 ∷ 0 ∷ 0 ∷ 0 ∷ 0 ∷ 0 ∷ 0 ∷ 0x202 ∷ []

frame_zeros : (entry : ℕ) → every (λ k. get_or (frame_words entry) (k + 1) 0 == 0) 7 ≡ true
unfolding every
frame_zeros entry = refl

frame_zero : (entry k : ℕ) → k < 7 → get_or (frame_words entry) (k + 1) 0 ≡ 0
frame_zero entry k lt =
    let row =
      every_sound (λ j. get_or (frame_words entry) (j + 1) 0 == 0) (frame_zeros entry) k lt in
    ground arith

pub pushed-Frame :
    (entry stack : ℕ) (words : ℕ → ℕ)
    → Frame entry
        (push_all (frame_words entry) (stack + 4096) words).0
        stack
        (push_all (frame_words entry) (stack + 4096) words).1
pushed-Frame entry stack words =
    let vs = frame_words entry in
    let top = stack + 4096 in
    let esp = (push_all vs top words).0 in
    let end : esp + 36 ≡ top = push_all_end vs top words (omega arith) in
    let at : (i : ℕ) → i < 9 → (push_all vs top words).1 (top - 4 - 4 * i) ≡ get_or vs i 0 =
      λ i lt. push_all_in vs top i words (omega arith) lt in
    record {
      at_end = end;
      flags = ap (push_all vs top words).1 (omega (arith, end)) ∙ at 8 (omega arith);
      registers = λ i lt.
          ap (push_all vs top words).1 (omega (arith, end))
          ∙ at (6 - i + 1) (omega arith)
          ∙ frame_zero entry (6 - i) (omega arith);
      returns_to = ap (push_all vs top words).1 (omega (arith, end)) ∙ at 0 (omega arith);
    }

pub link_task-task :
    (entry a b : ℕ) (s : Scheduler)
    → s.task_list ≢ a
    → (link_task entry a b s).task a ≡ record {
      id = s.next_pid;
      esp = (push_all (frame_words entry) (b + 4096) s.words).0;
      stack = b;
      state = TaskState.ready;
      next = (s.task s.task_list).next;
    }
unfolding link_task
link_task-task entry a b s ne =
    let not_head : (a == s.task_list) ≡ false = ground arith in
    let new_is : (a == a) ≡ true = ground arith in rw (not_head, new_is) refl
