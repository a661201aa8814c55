-- ===== src/Timer/Sleep.antt =====
-- How long `sleep` of kernel/drivers/timer/timer.c waits.
use frisca_os.Prelude.{
  ℕ, zero, suc, ◌+◌, ◌-◌, ◌/◌, ◌%◌, ◌^◌, ◌≤◌, ◌<◌, max, ◌≡◌, refl, true, false, List, [], ◌∷◌,
  arith, ltb, ◌==◌, ◌∙◌, ap, dec_lt,
}
use frisca_os.Prelude.Run.{Run, ok, fault, out_of_fuel, ◌>>=◌}
use frisca_os.Prelude.Word.{sub32}
use frisca_os.Timer.{Timer, handler, handle_ticks, ticks_to_wait, sleep_loop, sleep}

-- The wakes that are left once `wait` timer interrupts have been handled, if there are so many.
unfoldable pub left_after : ℕ → List ℕ → Run (List ℕ)
left_after zero wakes = ok wakes
left_after (suc w) [] = out_of_fuel
left_after (suc w) (n ∷ wakes) = left_after (suc w - n) wakes

-- No wake comes so late that the counter passes the start again.
abbrev pub Timely : ℕ → List ℕ → Type 0
Timely wait [] = Unit {0}
Timely wait (n ∷ wakes) = (n + wait ≤ 2 ^ 32) × Timely wait wakes

ticks-handle_ticks :
    (n : ℕ) (t : Timer) → (handle_ticks n t).ticks % 2 ^ 32 ≡ (t.ticks + n) % 2 ^ 32
unfolding handle_ticks handler
ticks-handle_ticks zero t = omega arith
ticks-handle_ticks (suc n) t = omega (arith, ticks-handle_ticks n (handler t).0)

pub handle_ticks-lt : (n : ℕ) (t : Timer) → t.ticks < 2 ^ 32 → (handle_ticks n t).ticks < 2 ^ 32
unfolding handle_ticks handler
handle_ticks-lt zero t h = h
handle_ticks-lt (suc n) t h = handle_ticks-lt n (handler t).0 (omega arith)

-- What `sleep` returns, less the variables.
abbrev pub wakes_left : Run (List ℕ × Timer) → Run (List ℕ)
wakes_left r = r >>= λ o. ok o.0

left_after-cons :
    (w n : ℕ) (wakes : List ℕ) → 0 < w → left_after w (n ∷ wakes) ≡ left_after (w - n) wakes
unfolding left_after
left_after-cons zero n wakes h = absurd (omega arith)
left_after-cons (suc w) n wakes h = refl

left_after-nil : (w : ℕ) → 0 < w → left_after w [] ≡ out_of_fuel
unfolding left_after
left_after-nil zero h = absurd (omega arith)
left_after-nil (suc w) h = refl

left_after-zero : (wakes : List ℕ) → left_after 0 wakes ≡ ok wakes
unfolding left_after
left_after-zero wakes = refl

sleep_loop-left_after :
    (wakes : List ℕ) (start wait gone : ℕ) (t : Timer)
    → start < 2 ^ 32
    → t.ticks < 2 ^ 32
    → gone < 2 ^ 32
    → wait < 2 ^ 32
    → t.ticks ≡ (start + gone) % 2 ^ 32
    → Timely wait wakes
    → wakes_left (sleep_loop wakes start wait t) ≡ left_after (wait - gone) wakes
unfolding sleep_loop
sleep_loop-left_after [] start wait gone t hs ht hg hw e timely = elim (dec_lt gone wait) [
  | yes lt ↦
      let more : ltb (sub32 t.ticks start) wait ≡ true = ground arith in
      rw (more, left_after-nil (wait - gone) (omega arith)) refl
  | no ge ↦
      let done : ltb (sub32 t.ticks start) wait ≡ false = ground arith in
      let none_left : wait - gone ≡ 0 = omega arith in rw (done, none_left, left_after-zero) refl
]
sleep_loop-left_after (n ∷ wakes) start wait gone t hs ht hg hw e timely = elim (dec_lt gone wait) [
  | yes lt ↦
      let more : ltb (sub32 t.ticks start) wait ≡ true = ground arith in
      let later : wait - gone - n ≡ wait - (gone + n) = omega arith in
      rw (more, left_after-cons (wait - gone) n wakes (omega arith), later)
        (sleep_loop-left_after wakes start wait (gone + n) (handle_ticks n t) hs
          (handle_ticks-lt n t ht) (omega (arith, timely.0)) hw
          (omega (arith, ticks-handle_ticks n t, handle_ticks-lt n t ht)) timely.1)
  | no ge ↦
      let done : ltb (sub32 t.ticks start) wait ≡ false = ground arith in
      let none_left : wait - gone ≡ 0 = omega arith in rw (done, none_left, left_after-zero) refl
]

-- The ticks that `sleep` waits for at a frequency.
abbrev pub wait_of : ℕ → ℕ → ℕ
wait_of ms f = max 1 (ms / (1000 / f))

quotient-le : (a b : ℕ) → a / b ≤ a
quotient-le a b = grind arith

pub ticks_to_wait_lem :
    (ms : ℕ) (t : Timer)
    → 0 < t.target_freq
    → t.target_freq ≤ 1000
    → ticks_to_wait ms t ≡ ok (wait_of ms t.target_freq)
unfolding ticks_to_wait
ticks_to_wait_lem ms t pos le =
    let f : (t.target_freq == 0) ≡ false = ground arith in
    let step : 1 ≤ 1000 / t.target_freq = grind arith in
    let g : (1000 / t.target_freq == 0) ≡ false = ground arith in rw (f, g) (ap ok (ground arith))

-- sleep at 1 to 1000 Hz returns at the first wake at which the due number of timer interrupts, at
-- least one, has been handled since the call, and not before, though the tick counter may wrap in
-- between; provided that no wake comes so late that the counter has gone all the way round to
-- where the wait would begin again (Timely).
pub sleep-left_after :
    (ms : ℕ) (wakes : List ℕ) (t : Timer)
    → 0 < t.target_freq
    → t.target_freq ≤ 1000
    → t.ticks < 2 ^ 32
    → ms < 2 ^ 32
    → Timely (wait_of ms t.target_freq) wakes
    → wakes_left (sleep ms wakes t) ≡ left_after (wait_of ms t.target_freq) wakes
unfolding sleep
sleep-left_after ms wakes t pos le small word timely =
    let wait = wait_of ms t.target_freq in
    let all : wait - 0 ≡ wait = omega arith in
    let fits : wait < 2 ^ 32 = omega (arith, quotient-le ms (1000 / t.target_freq)) in
    rw (ticks_to_wait_lem ms t pos le) (
      sleep_loop-left_after wakes t.ticks wait 0 t small small (omega arith) fits (omega arith)
        timely
      ∙ ap (λ w. left_after w wakes) all)

-- Above 1000 Hz `sleep` divides by zero, whatever the delay.
pub sleep-fault :
    (ms : ℕ) (wakes : List ℕ) (t : Timer) → 1000 < t.target_freq → sleep ms wakes t ≡ fault
unfolding sleep ticks_to_wait
sleep-fault ms wakes t h =
    let f : (t.target_freq == 0) ≡ false = ground arith in
    let z : 1000 / t.target_freq ≡ 0 = grind arith in rw (f, z) refl
