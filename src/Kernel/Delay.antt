-- ===== src/Kernel/Delay.antt =====
-- `testdelay` of kernel/shell.c in the kernel of kernel/kernel.c, before and after it waits.
use frisca_os.Prelude.{ℕ, ◌+◌, ◌≡◌, refl, ap, sym, ◌∙◌, List, [], ◌∷◌, ◌++◌, arith}
use frisca_os.CString.{poke}
use frisca_os.CString.Text.{poke_ne}
use frisca_os.Command.Sound.{Roomy}
use mathlib.Core.List.{append_assoc}
use frisca_os.Prelude.Run.{ok}
use frisca_os.Idt.{keyboard_handler_main}
use frisca_os.Keyboard.{handle_interrupt}
use frisca_os.Shell.Line.{shell_input_delay}
use frisca_os.Timer.{Timer, sleep}
use frisca_os.Vga.{Screen}
use frisca_os.Vga.Calls.{Call, perform, perform_all}
use frisca_os.Dispatch.{Places, System, say}
use frisca_os.Idt.{Stubs}
use frisca_os.Shell.{print_prompt}
use frisca_os.Shell.Enter.{terminated-Represents}
use frisca_os.Vga.Calls.{perform_all-IsValid}
use frisca_os.Kernel.{Kernel, show, type_char, keyboard_irq}
use frisca_os.Kernel.Events.{Delays, delay_start, delay_end}
use frisca_os.Kernel.Running.{Running, renew}

module _ (p : Places) (main : ℕ) (h : Stubs) (idt_address : ℕ) where
  pub delay_start-Running :
      (room : Roomy p) (scancode : ℕ) (k : Kernel) (r : Running p main h idt_address k)
      → (now : Running p main h idt_address (delay_start p scancode k)) × (now.files ≡ r.files)
  unfolding delay_start show
  delay_start-Running room scancode k r = (
    renew p main h idt_address k r (delay_start p scancode k).screen
        (delay_start p scancode k).shift_pressed (delay_start p scancode k).system r.line r.blocks
        r.files
        (perform_all-IsValid (say "\n" ∷ say "Waiting 2 seconds...\n" ∷ []) k.screen r.screen)
        (record {
          count = r.typed.count;
          bounded = r.typed.bounded;
          bytes = λ i lt.
              poke_ne (p.command_buffer + k.system.buffer_idx) 0 (p.command_buffer + i)
                k.system.files.bytes (omega (arith, r.typed.count))
              ∙ r.typed.bytes i lt;
        })
        r.nz
        (record {
          table =
              terminated-Represents p k.system r.line r.blocks r.files r.typed room.beside
                room.below r.sound.table;
          memory = r.sound.memory;
          ticks = r.sound.ticks;
          counter = r.sound.counter;
          frequency = r.sound.frequency;
          alive = r.sound.alive;
        })
        (λ x n l. l),
    refl,
  )

  pub delay_end-Running :
      (k : Kernel) (r : Running p main h idt_address k)
      → (now : Running p main h idt_address (delay_end k)) × (now.files ≡ r.files)
  unfolding delay_end show
  delay_end-Running k r = (
    renew p main h idt_address k r (delay_end k).screen k.shift_pressed (delay_end k).system []
        r.blocks r.files (perform_all-IsValid (say "Done!\n" ∷ print_prompt) k.screen r.screen)
        (record { count = refl; bounded = omega arith; bytes = λ i lt. absurd (omega arith) }) tt
        (record {
          table = r.sound.table;
          memory = r.sound.memory;
          ticks = r.sound.ticks;
          counter = r.sound.counter;
          frequency = r.sound.frequency;
          alive = r.sound.alive;
        })
        (λ x n l. l),
    refl,
  )

perform_all-append :
    (a b : List Call) (s : Screen)
    → perform_all (a ++ b) s ≡ (
      (perform_all b (perform_all a s).0).0,
      (perform_all a s).1 ++ (perform_all b (perform_all a s).0).1,
    )
unfolding perform_all
perform_all-append [] b s = refl
perform_all-append (c ∷ a) b s =
    let rest = perform_all-append a b (perform c s).0 in
    λ i. (
      (rest i).0,
      (ap (λ sent. (perform c s).1 ++ sent) (λ j. (rest j).1)
            ∙ sym (
                append_assoc (perform c s).1 (perform_all a (perform c s).0).1
                  (perform_all b (perform_all a (perform c s).0).0).1))
          i,
    )

-- What is printed in two parts.
show-append :
    (a b : List Call) (u : System) (k : Kernel)
    → show (a ++ b, u) k ≡ show (b, (show (a, u) k).system) (show (a, u) k)
unfolding show
show-append a b u k =
    let both = perform_all-append a b k.screen in
    λ i. record k {
      screen = (both i).0;
      system = record u {
        sent =
            (ap (λ sent. u.sent ++ sent) (λ j. (both j).1)
                ∙ sym (
                    append_assoc u.sent (perform_all a k.screen).1
                      (perform_all b (perform_all a k.screen).0).1))
              i;
      };
    }

-- The kernel with the timer that `sleep` leaves, and the wakes.
abbrev pub slept : List ℕ × Timer → Kernel → Kernel
slept r k = record k { system = record k.system { wakes = r.0; timer = r.1 } }

-- Where nothing but ticks comes while `testdelay` waits, the two parts are the keyboard interrupt.
pub keyboard_irq-delay :
    (p : Places) (scancode : ℕ) (k : Kernel) (r : List ℕ × Timer)
    → Delays p scancode k
    → sleep 2000 k.system.wakes k.system.timer ≡ ok r
    → keyboard_irq p scancode k ≡ ok (delay_end (slept r (delay_start p scancode k)))
unfolding keyboard_irq type_char delay_start delay_end show keyboard_handler_main
keyboard_irq-delay p scancode k r d wakes =
    let t = record k.system { sent = k.system.sent ++ (0x20, 0x20) ∷ [] } in
    let run = shell_input_delay p t r d.some_line d.command wakes d.alive in
    rw (d.enter, run)
      (ap ok (
        show-append (say "\n" ∷ say "Waiting 2 seconds...\n" ∷ []) (say "Done!\n" ∷ print_prompt)
          (record t {
            files = record t.files {
              bytes = poke (p.command_buffer + t.buffer_idx) 0 t.files.bytes;
            };
            wakes = r.0;
            timer = r.1;
            buffer_idx = 0;
          })
          (record k { shift_pressed = (handle_interrupt scancode k.shift_pressed).1 })))
