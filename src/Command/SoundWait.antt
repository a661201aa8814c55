-- ===== src/Command/SoundWait.antt =====
-- The commands of kernel/shell.c that wait, `testdelay` for ticks and `reboot` for the keyboard controller.
use frisca_os.Prelude.{
  ℕ, ◌≡◌, ◌⊎◌, inl, inr, refl, sym, ◌∙◌, false, List, [], ◌∷◌, ◌++◌, not, bit_and, Bool-cases,
  arith, ◌==◌,
}
use mathlib.Core.Path.{subst}
use frisca_os.Prelude.Run.{ok, out_of_fuel}
use frisca_os.Dispatch.{Places, System, say}
use frisca_os.Heap.Layout.{Block}
use frisca_os.Timer.{sleep}
use frisca_os.Timer.Enough.{Enough, Slept, sleep-ends, sleep-Enough}
use frisca_os.Vfs.Files.{File}
use frisca_os.Command.{run_testdelay, wait_ready, reboot}
use frisca_os.Command.Sound.{Sound, Roomy, Keeps, Prefix-refl}

-- Some status byte that is read has the bit clear that tells that the controller's input buffer is full.
abbrev pub ReadyIn : List ℕ → Type 0
ReadyIn [] = ⊥
ReadyIn (temp ∷ rest) = (bit_and temp 2 ≡ 0) ⊎ ReadyIn rest

-- Whether the byte is seen or not, the loop of `reboot` ends at it.
wait_ready-ends :
    (status : List ℕ)
    → (wait_ready status ≡ out_of_fuel) ⊎ ((rest : List ℕ) × (wait_ready status ≡ ok rest))
unfolding wait_ready
wait_ready-ends [] = inl refl
wait_ready-ends (temp ∷ rest) = elim (Bool-cases (not (bit_and temp 2 == 0))) [
  | inl again ↦ elim (wait_ready-ends rest) [
    | inl waits ↦ inl (rw again waits)
    | inr (left, e) ↦ inr (left, rw again e)
  ]
  | inr done ↦ inr (rest, rw done refl)
]

wait_ready-ReadyIn :
    (status : List ℕ) → ReadyIn status → (rest : List ℕ) × (wait_ready status ≡ ok rest)
unfolding wait_ready
wait_ready-ReadyIn [] ready = absurd ready
wait_ready-ReadyIn (temp ∷ rest) (inl clear) =
    let done : not (bit_and temp 2 == 0) ≡ false = ground arith in (rest, rw done refl)
wait_ready-ReadyIn (temp ∷ rest) (inr later) = elim (Bool-cases (not (bit_and temp 2 == 0))) [
  | inl again ↦ let l = wait_ready-ReadyIn rest later in (l.0, rw again l.1)
  | inr done ↦ (rest, rw done refl)
]

module _ (p : Places) (room : Roomy p) (s : System) (w : List Block) (fs : List File)
    (sound : Sound p s w fs) where
  testdelay-Keeps : Slept s.timer (sleep 2000 s.wakes s.timer) → Keeps p w fs (run_testdelay p s)
  unfolding run_testdelay
  testdelay-Keeps (rest, u, e, word, freq) = record {
    calls = say "Waiting 2 seconds...\n" ∷ say "Done!\n" ∷ [];
    after = record s { wakes = rest; timer = u };
    blocks = w;
    files = fs;
    returns = rw e refl;
    sound = record {
      table = sound.table;
      memory = sound.memory;
      ticks = word;
      counter = sound.counter;
      frequency = freq ∙ sound.frequency;
      alive = sound.alive;
    };
    kept = λ x n l. l;
    grown = Prefix-refl fs;
  }

  -- `testdelay` returns, or still waits when the wakes end.
  pub run_testdelay-ends : (run_testdelay p s ≡ out_of_fuel) ⊎ Keeps p w fs (run_testdelay p s)
  unfolding run_testdelay
  run_testdelay-ends =
      elim (sleep-ends 2000 s.wakes s.timer (omega (arith, sound.frequency))
        (omega (arith, sound.frequency)) sound.ticks) [
          | inl waits ↦ inl (rw waits refl)
          | inr slept ↦ inr (testdelay-Keeps slept)
        ]

  pub run_testdelay-Keeps : Enough 2000 100 s.wakes → Keeps p w fs (run_testdelay p s)
  run_testdelay-Keeps enough = testdelay-Keeps (
      sleep-Enough 2000 s.wakes s.timer (omega (arith, sound.frequency))
        (omega (arith, sound.frequency)) sound.ticks (omega arith)
        (subst (λ f. Enough 2000 f s.wakes) (sym sound.frequency) enough))

  reboot_with : (rest : List ℕ) → wait_ready s.status ≡ ok rest → Keeps p w fs (reboot s)
  unfolding reboot
  reboot_with rest e = record {
    calls = say "Rebooting system...\n" ∷ [];
    after = record s { status = rest; sent = s.sent ++ (0x64, 0xfe) ∷ [] };
    blocks = w;
    files = fs;
    returns = rw e refl;
    sound = record {
      table = sound.table;
      memory = sound.memory;
      ticks = sound.ticks;
      counter = sound.counter;
      frequency = sound.frequency;
      alive = sound.alive;
    };
    kept = λ x n l. l;
    grown = Prefix-refl fs;
  }

  -- `reboot` returns, or still reads when the status bytes end.
  pub reboot-ends : (reboot s ≡ out_of_fuel) ⊎ Keeps p w fs (reboot s)
  unfolding reboot
  reboot-ends = elim (wait_ready-ends s.status) [
    | inl waits ↦ inl (rw waits refl)
    | inr (rest, e) ↦ inr (reboot_with rest e)
  ]

  pub reboot-Keeps : ReadyIn s.status → Keeps p w fs (reboot s)
  reboot-Keeps ready = let l = wait_ready-ReadyIn s.status ready in reboot_with l.0 l.1
