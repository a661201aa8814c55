-- ===== src/Kernel/Stays.antt =====
-- The keyboard interrupt of kernel/kernel.c, Enter included: the kernel afterwards.
use frisca_os.Prelude.{
  ℕ, ◌<◌, ◌≡◌, ◌≢◌, ◌⊎◌, inl, inr, refl, sym, ◌∙◌, some, [], ◌∷◌, length, arith, ℕ_discrete,
}
use mathlib.Core.Path.{subst}
use frisca_os.Prelude.Run.{Run, ok, out_of_fuel}
use frisca_os.Command.Sound.{Roomy, Prefix, Prefix-refl}
use frisca_os.Dispatch.{Places, Output, say, tests}
use frisca_os.Dispatch.Choose.{choose}
use frisca_os.Heap.Provider.{heap_allocator}
use frisca_os.Idt.{Stubs}
use frisca_os.Shell.{shell_input, print_prompt}
use frisca_os.Shell.Edit.{edit, echo, shell_input-Edited}
use frisca_os.Shell.Line.{NoZero-edit, shell_input_empty}
use frisca_os.Shell.Returns.{Traps, Answered, Entered, shell_input-ends, shell_input-Entered}
use frisca_os.Vfs.Files.{Represents-frame}
use frisca_os.Vga.Calls.{perform_all-IsValid}
use frisca_os.Kernel.{Kernel, show, type_char}
use frisca_os.Kernel.Running.{Running, Halted, renew}

exception_of : {vector : ℕ} → (c : _) → Traps c vector → (vector ≡ 14) ⊎ (vector ≡ 0)
exception_of c (inl (_, e)) = inl e
exception_of c (inr (_, e)) = inr e

module _ (p : Places) (main : ℕ) (h : Stubs) (idt_address : ℕ) (room : Roomy p) where
  -- The kernel still runs, with every file as it was and perhaps more behind them, or has an exception.
  abbrev pub Since : {k : Kernel} → Running p main h idt_address k → Kernel → Type 0
  Since r after =
      ((now : Running p main h idt_address after) × Prefix r.files now.files)
      ⊎ Halted p main h idt_address after

  module _ (k : Kernel) (r : Running p main h idt_address k) where
    -- The run ends, and what is left is as it should be.
    abbrev pub GoesOn : Run Kernel → Type 0
    GoesOn run = (after : Kernel) × (run ≡ ok after) × Since r after

    -- A key other than Enter.
    edit-GoesOn : (c : ℕ) → c ≢ 10 → c ≢ 0 → GoesOn (type_char p (some c) k)
    unfolding type_char show
    edit-GoesOn c enter nonzero =
        let d = shell_input-Edited p k.system r.line r.typed c enter in
        let s = record k.system {
          files = record k.system.files { bytes = d.memory };
          buffer_idx = d.idx;
        } in
        let after =
          renew p main h idt_address k r (show (echo c r.line, s) k).screen k.shift_pressed
            (show (echo c r.line, s) k).system (edit c r.line) r.blocks r.files
            (perform_all-IsValid (echo c r.line) k.screen r.screen)
            (record { count = d.typed.count; bounded = d.typed.bounded; bytes = d.typed.bytes })
            (NoZero-edit c r.line nonzero r.nz)
            (record {
              table =
                  Represents-frame (heap_allocator p.heap_start) p.table k.system.files d.memory
                    r.blocks r.files p.command_buffer 256 room.beside room.below
                    (λ x out. d.kept x (omega arith)) r.sound.table;
              memory = r.sound.memory;
              ticks = r.sound.ticks;
              counter = r.sound.counter;
              frequency = r.sound.frequency;
              alive = r.sound.alive;
            })
            (λ x n l. l) in
        (show (echo c r.line, s) k, rw d.returns refl, inl (after, Prefix-refl r.files))

    -- Enter with nothing typed.
    empty-GoesOn : length r.line ≡ 0 → GoesOn (type_char p (some 10) k)
    unfolding type_char show
    empty-GoesOn e =
        let o : Output = (say "\n" ∷ print_prompt, k.system) in
        let after =
          renew p main h idt_address k r (show o k).screen k.shift_pressed (show o k).system r.line
            r.blocks r.files (perform_all-IsValid o.0 k.screen r.screen)
            (record { count = r.typed.count; bounded = r.typed.bounded; bytes = r.typed.bytes })
            r.nz
            (record {
              table = r.sound.table;
              memory = r.sound.memory;
              ticks = r.sound.ticks;
              counter = r.sound.counter;
              frequency = r.sound.frequency;
              alive = r.sound.alive;
            })
            (λ x n l. l) in
        (
          show o k,
          rw (shell_input_empty p k.system (r.typed.count ∙ e)) refl,
          inl (after, Prefix-refl r.files),
        )

    -- Enter with a line typed, of which it is known what comes.
    line-GoesOn :
        Entered p r.blocks r.files (choose tests r.line) (shell_input p 10 k.system)
        → GoesOn (type_char p (some 10) k)
    unfolding type_char show
    line-GoesOn (inl (calls, s, v, fs, e, sound, idx, grown, kept)) =
        let after =
          renew p main h idt_address k r (show (calls, s) k).screen k.shift_pressed
            (show (calls, s) k).system [] v fs (perform_all-IsValid calls k.screen r.screen)
            (record { count = idx; bounded = omega arith; bytes = λ i lt. absurd (omega arith) }) tt
            (record {
              table = sound.table;
              memory = sound.memory;
              ticks = sound.ticks;
              counter = sound.counter;
              frequency = sound.frequency;
              alive = sound.alive;
            })
            kept in
        (show (calls, s) k, rw e refl, inl (after, grown))
    line-GoesOn (inr (calls, s, vector, e, trap, traps)) = (
      show (calls, s) k,
      rw e refl,
      inr (record {
        vector = vector;
        trap = trap;
        exception = exception_of (choose tests r.line) traps;
        screen = perform_all-IsValid calls k.screen r.screen;
      }),
    )

    -- What a character does to the kernel: it goes on, unless Enter on the line leaves what `X` says.
    type_char_with :
        {X : Type 0} (c : ℕ)
        → c ≢ 0
        → (c ≡ 10
            → 0 < length r.line
            → X ⊎ Entered p r.blocks r.files (choose tests r.line) (shell_input p 10 k.system))
        → X ⊎ GoesOn (type_char p (some c) k)
    type_char_with c nonzero comes = elim (ℕ_discrete c 10) [
      | no other ↦ inr (edit-GoesOn c other nonzero)
      | yes enter ↦
          let at_c : GoesOn (type_char p (some 10) k) → GoesOn (type_char p (some c) k) =
            subst (λ d. GoesOn (type_char p (some d) k)) (sym enter) in
          elim (ℕ_discrete (length r.line) 0) [
            | yes empty ↦ inr (at_c (empty-GoesOn empty))
            | no some_left ↦ elim (comes enter (omega arith)) [
              | inl x ↦ inl x
              | inr entered ↦ inr (at_c (line-GoesOn entered))
            ]
          ]
    ]

    -- A character either way: the kernel goes on, or a command still waits when what comes from outside
    -- ends.
    pub type_char-ends :
        (c : ℕ) → c ≢ 0 → (type_char p (some c) k ≡ out_of_fuel) ⊎ GoesOn (type_char p (some c) k)
    unfolding type_char
    type_char-ends c nonzero = type_char_with c nonzero (λ enter some_line.
        elim (shell_input-ends p room k.system r.blocks r.files r.line r.sound r.typed some_line
          r.nz) [
            | inl waits ↦
                inl (subst (λ d. type_char p (some d) k ≡ out_of_fuel) (sym enter) (rw waits refl))
            | inr entered ↦ inr entered
          ])

    pub type_char-GoesOn :
        (c : ℕ) → c ≢ 0 → Answered (choose tests r.line) k.system → GoesOn (type_char p (some c) k)
    type_char-GoesOn c nonzero a =
        elim (type_char_with {X = ⊥} c nonzero (λ enter some_line. inr (
          shell_input-Entered p room k.system r.blocks r.files r.line r.sound r.typed some_line r.nz
            a))) [ inl never ↦ absurd never | inr goes ↦ goes ]
