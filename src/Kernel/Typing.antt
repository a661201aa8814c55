-- ===== src/Kernel/Typing.antt =====
-- Keys that are pressed in a row: the keyboard interrupt, the shell and the screen together.
use frisca_os.Prelude.{
  ℕ, ◌+◌, ◌≤◌, ◌≡◌, ◌≢◌, refl, ap, sym, Bool, Option, none, some, List, [], ◌∷◌, ◌++◌, arith,
}
use mathlib.Core.Path.{subst}
use frisca_os.Prelude.Run.{Run, ok, ◌>>=◌}
use frisca_os.Dispatch.{Places}
use frisca_os.Heap.{header}
use frisca_os.Heap.Layout.{Block}
use frisca_os.Heap.Provider.{heap_allocator}
use frisca_os.Idt.{keyboard_handler_main}
use frisca_os.Keyboard.{handle_interrupt}
use frisca_os.Shell.Edit.{Typed, edit, echo, shell_input-Edited}
use frisca_os.Vfs.Files.{File, Represents, Represents-frame, Outside}
use frisca_os.Vga.Inv.{IsValid}
use frisca_os.Vga.Calls.{perform_all-IsValid}
use frisca_os.Kernel.{Kernel, show, type_char, keyboard_irq}

-- The line after the character that a key gives, if any.
unfoldable pub typed_line : Option ℕ → List ℕ → List ℕ
typed_line none l = l
typed_line (some c) l = edit c l

-- The line after a history of scancodes, none of which is Enter.
unfoldable pub line_after : List ℕ → Bool → List ℕ → List ℕ
line_after [] shift l = l
line_after (s ∷ ss) shift l =
    line_after ss (handle_interrupt s shift).1 (typed_line (handle_interrupt s shift).0 l)

-- No key of the history is Enter.
abbrev pub NoEnter : List ℕ → Bool → Type 0
NoEnter [] shift = Unit {0}
NoEnter (s ∷ ss) shift =
    ((handle_interrupt s shift).0 ≢ some 10) × NoEnter ss (handle_interrupt s shift).1

module _ (p : Places) where
  -- The interrupts of keys in a row.
  unfoldable pub press_all : List ℕ → Kernel → Run Kernel
  press_all [] k = ok k
  press_all (s ∷ ss) k = keyboard_irq p s k >>= press_all ss

  -- The line is typed, the cursor is on the screen, and the table holds the files.
  pub record Editing (k : Kernel) (l : List ℕ) (w : List Block) (fs : List File) : Type 0 where
    pub line : Typed p k.system l
    pub screen : IsValid k.screen
    pub table : Represents (heap_allocator p.heap_start) p.table k.system.files w fs

  module _ (o : Outside (heap_allocator p.heap_start) p.table p.command_buffer 256)
      (below : p.table + 704 ≤ p.heap_start + header) (w : List Block) (fs : List File) where
    type_char-Editing :
        (c : Option ℕ) (k : Kernel) (l : List ℕ)
        → Editing k l w fs
        → c ≢ some 10
        → (after : Kernel) × (type_char p c k ≡ ok after)
          × Editing after (typed_line c l) w fs
          × (after.shift_pressed ≡ k.shift_pressed)
    unfolding type_char typed_line show
    type_char-Editing none k l e no_enter = (k, refl, e, refl)
    type_char-Editing (some c) k l e no_enter =
        let d = shell_input-Edited p k.system l e.line c (λ f. no_enter (ap some f)) in
        let s = record k.system {
          files = record k.system.files { bytes = d.memory };
          buffer_idx = d.idx;
        } in
        (
          show (echo c l, s) k,
          rw d.returns refl,
          record {
            line = record {
              count = d.typed.count;
              bounded = d.typed.bounded;
              bytes = d.typed.bytes;
            };
            screen = perform_all-IsValid (echo c l) k.screen e.screen;
            table =
                Represents-frame (heap_allocator p.heap_start) p.table k.system.files d.memory w fs
                  p.command_buffer 256 o below (λ x out. d.kept x (omega arith)) e.table;
          },
          refl,
        )

    key-Editing :
        (s : ℕ) (k : Kernel) (l : List ℕ)
        → Editing k l w fs
        → (handle_interrupt s k.shift_pressed).0 ≢ some 10
        → (after : Kernel) × (keyboard_irq p s k ≡ ok after)
          × Editing after (typed_line (handle_interrupt s k.shift_pressed).0 l) w fs
          × (after.shift_pressed ≡ (handle_interrupt s k.shift_pressed).1)
    unfolding keyboard_irq keyboard_handler_main
    key-Editing s k l e no_enter =
        let r = handle_interrupt s k.shift_pressed in
        let u = record k {
          shift_pressed = r.1;
          system = record k.system { sent = k.system.sent ++ (0x20, 0x20) ∷ [] };
        } in
        type_char-Editing r.0 u l
          (record {
            line = record { count = e.line.count; bounded = e.line.bounded; bytes = e.line.bytes };
            screen = e.screen;
            table = e.table;
          })
          no_enter

    -- Keys that are pressed and released in a row, none of them Enter, where the command buffer lies
    -- outside of the table and below the heap: every interrupt returns; the line is what the characters
    -- of the keys make of it, the cursor is on the screen, and the table holds the files as before.
    pub press_all-Editing :
        (ss : List ℕ) (k : Kernel) (l : List ℕ)
        → Editing k l w fs
        → NoEnter ss k.shift_pressed
        → (after : Kernel) × (press_all ss k ≡ ok after)
          × Editing after (line_after ss k.shift_pressed l) w fs
    unfolding press_all line_after
    press_all-Editing [] k l e no_enter = (k, refl, e)
    press_all-Editing (s ∷ ss) k l e (here, rest) =
        let step = key-Editing s k l e here in
        let l' = typed_line (handle_interrupt s k.shift_pressed).0 l in
        let after = press_all-Editing ss step.0 l' step.2 (subst (NoEnter ss) (sym step.3) rest) in
        (
          after.0,
          rw step.1 after.1,
          subst (λ shift. Editing after.0 (line_after ss shift l') w fs) step.3 after.2,
        )
