-- ===== src/Timer/Enough.antt =====
-- `sleep` of kernel/drivers/timer/timer.c where enough timer interrupts come, and where they may not.
use frisca_os.Prelude.{
  ℕ, zero, suc, ◌+◌, ◌-◌, ◌^◌, ◌≤◌, ◌<◌, ◌≡◌, ◌⊎◌, inl, inr, refl, ◌∙◌, List, [], ◌∷◌, arith, ltb,
  Bool-cases,
}
use mathlib.Core.Path.{subst}
use frisca_os.Prelude.Run.{Run, ok, out_of_fuel}
use frisca_os.Prelude.Word.{sub32}
use frisca_os.Timer.{Timer, handler, handle_ticks, sleep_loop, sleep}
use frisca_os.Timer.Sleep.{
  Timely, handle_ticks-lt, left_after, sleep-left_after, ticks_to_wait_lem, wait_of, wakes_left,
}

-- The timer interrupts of all wakes.
abbrev pub total : List ℕ → ℕ
total [] = 0
total (n ∷ wakes) = n + total wakes

-- The wakes bring the interrupts that `sleep` waits for, and none comes too late.
abbrev pub Enough : ℕ → ℕ → List ℕ → Type 0
Enough ms freq wakes = Timely (wait_of ms freq) wakes × (wait_of ms freq ≤ total wakes)

left_after-total :
    (w : ℕ) (wakes : List ℕ) → w ≤ total wakes → (rest : List ℕ) × (left_after w wakes ≡ ok rest)
unfolding left_after
left_after-total zero wakes le = (wakes, refl)
left_after-total (suc w) [] le = absurd (omega arith)
left_after-total (suc w) (n ∷ wakes) le = left_after-total (suc w - n) wakes (omega arith)

handle_ticks-target_freq : (n : ℕ) (t : Timer) → (handle_ticks n t).target_freq ≡ t.target_freq
unfolding handle_ticks handler
handle_ticks-target_freq zero t = refl
handle_ticks-target_freq (suc n) t = handle_ticks-target_freq n (handler t).0

-- The run has ended with a timer of the same frequency.
abbrev pub Slept : Timer → Run (List ℕ × Timer) → Type 0
Slept t run =
    (rest : List ℕ) × (u : Timer) × (run ≡ ok (rest, u))
    × (u.ticks < 2 ^ 32)
    × (u.target_freq ≡ t.target_freq)

sleep_loop-ends :
    (wakes : List ℕ) (start wait : ℕ) (t : Timer)
    → t.ticks < 2 ^ 32
    → (sleep_loop wakes start wait t ≡ out_of_fuel) ⊎ Slept t (sleep_loop wakes start wait t)
unfolding sleep_loop
sleep_loop-ends [] start wait t lt = elim (Bool-cases (ltb (sub32 t.ticks start) wait)) [
  | inl more ↦ inl (rw more refl)
  | inr done ↦ inr ([], t, rw done refl, lt, refl)
]
sleep_loop-ends (n ∷ wakes) start wait t lt =
    let u = handle_ticks n t in
    elim (Bool-cases (ltb (sub32 t.ticks start) wait)) [
      | inl more ↦ elim (sleep_loop-ends wakes start wait u (handle_ticks-lt n t lt)) [
        | inl waits ↦ inl (rw more waits)
        | inr (rest, v, e, word, freq) ↦
            inr (rest, v, rw more e, word, freq ∙ handle_ticks-target_freq n t)
      ]
      | inr done ↦ inr (n ∷ wakes, t, rw done refl, lt, refl)
    ]

module _ (ms : ℕ) (wakes : List ℕ) (t : Timer) (pos : 0 < t.target_freq) (le : t.target_freq ≤ 1000)
    (word : t.ticks < 2 ^ 32) where
  -- `sleep` returns, or still waits when the wakes end.
  pub sleep-ends : (sleep ms wakes t ≡ out_of_fuel) ⊎ Slept t (sleep ms wakes t)
  unfolding sleep
  sleep-ends =
      rw (ticks_to_wait_lem ms t pos le)
        (sleep_loop-ends wakes t.ticks (wait_of ms t.target_freq) t word)

  pub sleep-Enough : ms < 2 ^ 32 → Enough ms t.target_freq wakes → Slept t (sleep ms wakes t)
  sleep-Enough small (timely, enough) = elim sleep-ends [
    | inl waits ↦
        let left = left_after-total (wait_of ms t.target_freq) wakes enough in
        let never : out_of_fuel ≡ ok left.0 =
          subst (λ r. wakes_left r ≡ ok left.0) waits
            (sleep-left_after ms wakes t pos le word small timely ∙ left.1) in
        absurd (cc)
    | inr slept ↦ slept
  ]
