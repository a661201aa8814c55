-- ===== src/Shell/Returns.antt =====
-- Enter in kernel/shell.c on any line: whether the command returns, and what it leaves.
use mathlib.Core.Path.{subst}
use frisca_os.Prelude.{
  ℕ, ◌≤◌, ◌<◌, ◌≡◌, ◌⊎◌, inl, inr, refl, ap, sym, ◌∙◌, some, List, [], ◌∷◌, ◌++◌, length,
  length-append, arith,
}
use frisca_os.Prelude.Ascii.{codes}
use frisca_os.Prelude.Run.{Run, ok, out_of_fuel}
use frisca_os.CString.Text.{HasText}
use frisca_os.CString.Copy.{NoZero}
use frisca_os.Heap.Layout.{Block, Live}
use frisca_os.Vfs.Files.{File}
use frisca_os.Vga.Calls.{Call}
use frisca_os.Dispatch.{Command, Places, System, Output, say, tests}
use frisca_os.Dispatch.Choose.{choose}
use frisca_os.Dispatch.Chosen.{choose-write, choose-cat}
use frisca_os.Command.{run_command}
use frisca_os.Command.Sound.{
  Sound, Roomy, Keeps, Prefix, stays, run_timer-Keeps, run_mem-Keeps, run_ps-Keeps,
  run_testmem-Keeps, run_testheap-Keeps,
}
use frisca_os.Command.SoundFiles.{run_ls-Keeps, run_cat-Keeps, run_unknown-Keeps}
use frisca_os.Command.SoundWait.{
  ReadyIn, run_testdelay-ends, run_testdelay-Keeps, reboot-ends, reboot-Keeps,
}
use frisca_os.Timer.Enough.{Enough}
use frisca_os.Command.SoundWrite.{run_write-Keeps}
use frisca_os.Shell.{print_prompt, finish, shell_input}
use frisca_os.Shell.Edit.{Typed}
use frisca_os.Shell.Enter.{terminated, terminated-Represents, shell_input-choose}

-- The commands that end in an exception.
abbrev pub Traps : Command → ℕ → Type 0
Traps c vector = ((c ≡ Command.crash) × (vector ≡ 14)) ⊎ ((c ≡ Command.divzero) × (vector ≡ 0))

-- What a command waits for comes: 200 ticks for `testdelay`, and a ready controller for `reboot`.
abbrev pub Answered : Command → System → Type 0
Answered c s =
    (c ≡ Command.testdelay → Enough 2000 100 s.wakes) × (c ≡ Command.reboots → ReadyIn s.status)

-- The command has returned, or ended in an exception.
abbrev Outcome : Places → List Block → List File → Command → System → Run Output → Type 0
Outcome p w fs c s run =
    Keeps p w fs run
    ⊎ ((calls : List Call) × (vector : ℕ) × (run ≡ ok (calls, record s { trap = some vector }))
        × Traps c vector)

-- The command still waits when what comes from outside ends.
abbrev Waits : Places → Command → System → Type 0
Waits p c s = (run_command p c s ≡ out_of_fuel) × ((c ≡ Command.testdelay) ⊎ (c ≡ Command.reboots))

module _ (p : Places) (room : Roomy p) (s : System) (w : List Block) (fs : List File)
    (sound : Sound p s w fs) (l : List ℕ) (there : HasText s.files.bytes p.command_buffer l)
    (short : length l ≤ 255) where
  run_command-ends :
      (c : Command) → choose tests l ≡ c → Waits p c s ⊎ Outcome p w fs c s (run_command p c s)
  unfolding run_command
  run_command-ends Command.help e = inr (inl (stays p room s w fs sound))
  run_command-ends Command.version e = inr (inl (stays p room s w fs sound))
  run_command-ends Command.timer e = inr (inl (run_timer-Keeps p room s w fs sound))
  run_command-ends Command.testdelay e = elim (run_testdelay-ends p room s w fs sound) [
    | inl waits ↦ inl (waits, inl refl)
    | inr keeps ↦ inr (inl keeps)
  ]
  run_command-ends Command.mem e = inr (inl (run_mem-Keeps p room s w fs sound))
  run_command-ends Command.testmem e = inr (inl (run_testmem-Keeps p room s w fs sound))
  run_command-ends Command.testheap e = inr (inl (run_testheap-Keeps p room s w fs sound))
  run_command-ends Command.crash e =
      inr (inr (say "Triggering page fault...\n" ∷ [], 14, refl, inl (refl, refl)))
  run_command-ends Command.divzero e = inr (inr ([], 0, refl, inr (refl, refl)))
  run_command-ends Command.ps e = inr (inl (run_ps-Keeps p room s w fs sound))
  run_command-ends Command.ls e = inr (inl (run_ls-Keeps p room s w fs sound))
  run_command-ends Command.cat e =
      let rest = choose-cat l e in
      inr (
        inl (
          run_cat-Keeps p room s w fs sound rest.0
            (subst (HasText s.files.bytes p.command_buffer) rest.1 there)
            (omega (arith, ap length rest.1, length-append (codes "cat ") rest.0))))
  run_command-ends Command.write e =
      let rest = choose-write l e in
      inr (
        inl (
          run_write-Keeps p room s w fs sound rest.0
            (subst (HasText s.files.bytes p.command_buffer) rest.1 there)
            (omega (arith, ap length rest.1, length-append (codes "write ") rest.0))))
  run_command-ends Command.clear e = inr (inl (stays p room s w fs sound))
  run_command-ends Command.reboots e = elim (reboot-ends p room s w fs sound) [
    | inl waits ↦ inl (waits, inr refl)
    | inr keeps ↦ inr (inl keeps)
  ]
  run_command-ends Command.unknown e =
      inr (inl (run_unknown-Keeps p room s w fs sound l there (omega (arith, room.fuel))))

  -- Once it is answered a command does not wait.
  Answered-returns : (c : Command) → Answered c s → ¬ (Waits p c s)
  unfolding run_command
  Answered-returns c a (e, inl is) =
      let k = run_testdelay-Keeps p room s w fs sound (a.0 is) in
      let never = sym (subst (λ d. run_command p d s ≡ out_of_fuel) is e) ∙ k.returns in absurd (cc)
  Answered-returns c a (e, inr is) =
      let k = reboot-Keeps p room s w fs sound (a.1 is) in
      let never = sym (subst (λ d. run_command p d s ≡ out_of_fuel) is e) ∙ k.returns in absurd (cc)

-- What comes of Enter: the line is empty again, the state is sound, no file has changed, though one may have
-- come, and no payload in use was given back;
-- or the processor has an exception, and of the state only that is said.
abbrev pub Entered : Places → List Block → List File → Command → Run Output → Type 0
Entered p w fs c run =
    ((calls : List Call) × (after : System) × (v : List Block) × (gs : List File) × (run
        ≡ ok (calls, after))
      × Sound p after v gs
      × (after.buffer_idx ≡ 0)
      × Prefix fs gs
      × ((x n : ℕ) → Live p.heap_start w x n → Live p.heap_start v x n))
    ⊎ ((calls : List Call) × (after : System) × (vector : ℕ) × (run ≡ ok (calls, after))
        × (after.trap ≡ some vector)
        × Traps c vector)

module _ (p : Places) (room : Roomy p) (s : System) (w : List Block) (fs : List File) (l : List ℕ)
    (sound : Sound p s w fs) (typed : Typed p s l) (some_line : 0 < length l) (nz : NoZero l) where
  pub terminated-Sound : Sound p (terminated p s l) w fs
  terminated-Sound = record {
    table = terminated-Represents p s l w fs typed room.beside room.below sound.table;
    memory = sound.memory;
    ticks = sound.ticks;
    counter = sound.counter;
    frequency = sound.frequency;
    alive = sound.alive;
  }

  run_command-Entered :
      Outcome p w fs
        (choose tests l)
        (terminated p s l)
        (run_command p (choose tests l) (terminated p s l))
      → Entered p w fs (choose tests l) (shell_input p 10 s)
  unfolding finish
  run_command-Entered (inl k) =
      let enter =
        shell_input-choose p s l typed some_line nz room.literals (omega (arith, room.fuel)) in
      inl (
        say "\n" ∷ (k.calls ++ print_prompt),
        record k.after { buffer_idx = 0 },
        k.blocks,
        k.files,
        enter.1 ∙ rw (k.returns, k.sound.alive) refl,
        record {
          table = k.sound.table;
          memory = k.sound.memory;
          ticks = k.sound.ticks;
          counter = k.sound.counter;
          frequency = k.sound.frequency;
          alive = k.sound.alive;
        },
        refl,
        k.grown,
        k.kept,
      )
  run_command-Entered (inr (calls, vector, e, traps)) =
      let enter =
        shell_input-choose p s l typed some_line nz room.literals (omega (arith, room.fuel)) in
      inr (
        say "\n" ∷ calls,
        record (terminated p s l) { trap = some vector },
        vector,
        enter.1 ∙ rw e refl,
        refl,
        traps,
      )

  command-ends :
      Waits p (choose tests l) (terminated p s l)
      ⊎ Outcome p w fs
          (choose tests l)
          (terminated p s l)
          (run_command p (choose tests l) (terminated p s l))
  command-ends =
      let enter =
        shell_input-choose p s l typed some_line nz room.literals (omega (arith, room.fuel)) in
      run_command-ends p room (terminated p s l) w fs terminated-Sound l enter.0 typed.bounded
        (choose tests l) refl

  -- Enter with a line: it returns, or it still waits when what comes from outside ends.
  pub shell_input-ends :
      (shell_input p 10 s ≡ out_of_fuel) ⊎ Entered p w fs (choose tests l) (shell_input p 10 s)
  shell_input-ends =
      let enter =
        shell_input-choose p s l typed some_line nz room.literals (omega (arith, room.fuel)) in
      elim command-ends [
        | inl (waits, _) ↦ inl (enter.1 ∙ rw waits refl)
        | inr done ↦ inr (run_command-Entered done)
      ]

  -- Enter with any line typed, over a sound state: where the wakes bring the 200 ticks that
  -- testdelay waits for and a status byte read by reboot says that the controller is ready, the
  -- shell returns, with the line empty again, a sound state, every file as it was, and every
  -- payload that was in use still in use, unless the line is crash or divzero, which end in a page
  -- fault and a division error. The places are as in Roomy: the command buffer beside the file
  -- table, both below the heap, the string literals apart from the buffer, and more fuel than the
  -- heap has bytes.
  pub shell_input-Entered :
      Answered (choose tests l) s → Entered p w fs (choose tests l) (shell_input p 10 s)
  shell_input-Entered a =
      let enter =
        shell_input-choose p s l typed some_line nz room.literals (omega (arith, room.fuel)) in
      elim command-ends [
        | inl waits ↦ absurd (
            Answered-returns p room (terminated p s l) w fs terminated-Sound l enter.0 typed.bounded
              (choose tests l) a waits)
        | inr done ↦ run_command-Entered done
      ]
