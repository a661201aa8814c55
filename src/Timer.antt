-- ===== src/Timer.antt =====
-- kernel/drivers/timer/timer.c: the tick counter, programming the PIT, and `sleep`.
-- A call of `outb` is a pair of port and byte in the list of writes, oldest first. A division by zero
-- is a fault. While `sleep` halts, other code runs: the argument `wakes` says, for each time that the
-- processor wakes in this task, how many timer interrupts were handled since it was halted.
pub mod Enough
pub mod Program
pub mod Sleep
mod Tests
use frisca_os.Prelude.{
  ℕ, zero, suc, ◌*◌, ◌/◌, ◌%◌, ◌^◌, Bool, true, false, List, [], ◌∷◌, bit_and, ltb, ◌==◌,
  if◌then◌else◌,
}
use frisca_os.Prelude.Run.{Run, ok, fault, out_of_fuel, ◌>>=◌}
use frisca_os.Prelude.Word.{u8, add32, sub32}

-- The three static variables; `need_reschedule` is only ever 0 or 1.
pub record Timer : Type 0 where
  pub ticks : ℕ
  pub target_freq : ℕ
  pub need_reschedule : Bool

abbrev pub Writes : Type 0
Writes = List (ℕ × ℕ)

-- PIT_COMMAND_PORT
abbrev pub command_port : ℕ
command_port = 0x43

-- PIT_CHANNEL0_PORT
abbrev pub channel0_port : ℕ
channel0_port = 0x40

-- PIT_BASE_FREQUENCY
abbrev pub base_frequency : ℕ
base_frequency = 1193182

-- Division of `uint32_t`.
abbrev divide : ℕ → ℕ → Run ℕ
divide a b = if b == 0 then fault else ok (a / b)

pub init : ℕ → Timer → Run (Timer × Writes)
init frequency t = do
  divisor ← divide base_frequency frequency
  ok (
    record t { target_freq = frequency },
    (command_port, 0x36)
        ∷ (channel0_port, u8 (bit_and divisor 0xff))
        ∷ (channel0_port, u8 (bit_and (divisor / 2 ^ 8) 0xff))
        ∷ [],
  )

-- `timer_handler`: the tick, and the end-of-interrupt to the master PIC.
unfoldable pub handler : Timer → Timer × Writes
handler t = (record t { ticks = add32 t.ticks 1; need_reschedule = true }, (0x20, 0x20) ∷ [])

-- `timer_get_ticks`
unfoldable pub get_ticks : Timer → ℕ
get_ticks t = t.ticks

-- `timer_needs_reschedule`
unfoldable pub needs_reschedule : Timer → Bool
needs_reschedule t = t.need_reschedule

-- `timer_clear_reschedule`
unfoldable pub clear_reschedule : Timer → Timer
clear_reschedule t = record t { need_reschedule = false }

-- So many timer interrupts are handled, one after the other.
pub handle_ticks : ℕ → Timer → Timer
unfolding handler
handle_ticks zero t = t
handle_ticks (suc n) t = handle_ticks n (handler t).0

-- `ticks_to_wait` of `sleep`
unfoldable pub ticks_to_wait : ℕ → Timer → Run ℕ
ticks_to_wait ms t = do
  per_tick ← divide 1000 t.target_freq
  wait ← divide ms per_tick
  ok (if wait == 0 then 1 else wait)

-- The `while` of `sleep`, with the wakes that are left; out of fuel means that it still waits.
pub sleep_loop : List ℕ → ℕ → ℕ → Timer → Run (List ℕ × Timer)
unfolding handle_ticks
sleep_loop [] start wait t = if ltb (sub32 t.ticks start) wait then out_of_fuel else ok ([], t)
sleep_loop (n ∷ wakes) start wait t =
    let rest = sleep_loop wakes start wait (handle_ticks n t) in
    if ltb (sub32 t.ticks start) wait then rest else ok (n ∷ wakes, t)

pub sleep : ℕ → List ℕ → Timer → Run (List ℕ × Timer)
unfolding sleep_loop ticks_to_wait
sleep ms wakes t = do wait ← ticks_to_wait ms t; sleep_loop wakes t.ticks wait t
