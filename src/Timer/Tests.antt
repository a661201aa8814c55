-- ===== src/Timer/Tests.antt =====
-- Runs of kernel/drivers/timer/timer.c, and its theorems at the kernel's 100 Hz.
use frisca_os.Prelude.{◌≡◌, false, [], ◌∷◌, arith}
use frisca_os.Prelude.Run.{ok}
use frisca_os.Timer.{Timer, sleep}
use frisca_os.Timer.Sleep.{wait_of, left_after, wakes_left, sleep-left_after}

-- Two ticks before the counter wraps.
abbrev late : Timer
late = record { ticks = 0xffff_fffe; target_freq = 100; need_reschedule = false }

-- sleep(50) wakes five times, with an interrupt that is no tick in between.
sleep-left_after_example :
    wakes_left (sleep 50 (1 ∷ 1 ∷ 0 ∷ 1 ∷ 2 ∷ 7 ∷ []) late)
    ≡ left_after (wait_of 50 100) (1 ∷ 1 ∷ 0 ∷ 1 ∷ 2 ∷ 7 ∷ [])
sleep-left_after_example =
    sleep-left_after 50 (1 ∷ 1 ∷ 0 ∷ 1 ∷ 2 ∷ 7 ∷ []) late (omega arith) (omega arith) (omega arith)
      (omega arith) (omega arith)

sleep_runs : wakes_left (sleep 50 (1 ∷ 1 ∷ 0 ∷ 1 ∷ 2 ∷ 7 ∷ []) late) ≡ ok (7 ∷ [])
unfolding left_after
sleep_runs =
    sleep-left_after 50 (1 ∷ 1 ∷ 0 ∷ 1 ∷ 2 ∷ 7 ∷ []) late (omega arith) (omega arith) (omega arith)
      (omega arith) (omega arith)
