-- ===== src/Timer/Program.antt =====
-- The divisor that kernel/drivers/timer/timer.c gives to the PIT.
use frisca_os.Prelude.{
  ℕ, ◌+◌, ◌*◌, ◌/◌, ◌%◌, ◌^◌, ◌≤◌, ◌<◌, ◌≡◌, refl, [], ◌∷◌, arith, false, bit_and, ◌==◌,
  if◌then◌else◌,
}
use frisca_os.Prelude.Bits.{bit_and_mask}
use frisca_os.Prelude.Run.{ok}
use frisca_os.Prelude.Word.{u8}
use frisca_os.Timer.{Timer, Writes, init, command_port, channel0_port, base_frequency}

-- The count that the PIT loads from the two bytes written to channel 0, the low byte first.
abbrev pub loaded : Writes → ℕ
loaded [] = 0
loaded ((port, byte) ∷ ws) = if port == channel0_port then byte + 256 * loaded ws else loaded ws

-- The writes that give the PIT a divisor.
abbrev divisor_writes : ℕ → Writes
divisor_writes d =
    (command_port, 0x36)
    ∷ (channel0_port, u8 (bit_and d 0xff))
    ∷ (channel0_port, u8 (bit_and (d / 2 ^ 8) 0xff))
    ∷ []

init-writes :
    (f : ℕ) (t : Timer)
    → 0 < f
    → init f t ≡ ok (record t { target_freq = f }, divisor_writes (base_frequency / f))
unfolding init
init-writes f t pos = let e : (f == 0) ≡ false = ground arith in rw e refl

loaded-divisor : (d : ℕ) → loaded (divisor_writes d) ≡ d % 2 ^ 16
loaded-divisor d = omega (arith, bit_and_mask 8 d, bit_and_mask 8 (d / 2 ^ 8))

quotient_small : (f : ℕ) → 19 ≤ f → base_frequency / f < 2 ^ 16
quotient_small f h = grind arith

-- `timer_init` with a frequency of 19 Hz or more ends, sets the frequency and no other variable,
-- and the PIT loads the quotient of the base frequency.
pub init-exact :
    (f : ℕ) (t : Timer)
    → 19 ≤ f
    → (ws : Writes) × (init f t ≡ ok (record t { target_freq = f }, ws))
      × (loaded ws ≡ base_frequency / f)
init-exact f t h = (
  divisor_writes (base_frequency / f),
  init-writes f t (omega arith),
  omega (arith, loaded-divisor (base_frequency / f), quotient_small f h),
)
