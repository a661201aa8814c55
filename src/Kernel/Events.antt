-- ===== src/Kernel/Events.antt =====
-- What happens after `kernel_main` of kernel/kernel.c has halted: the two interrupts, in any order, and the
-- background task. A handler ends before the next event, but where `testdelay` waits: there others come, or
-- else its handler is one event and gets what comes from outside, as that of `reboot` does. When the
-- background task counts, while it is its turn, is left open.
use frisca_os.Prelude.{ℕ, ◌+◌, ◌≤◌, ◌<◌, ◌≡◌, ◌≢◌, none, some, List, [], ◌∷◌, ◌++◌}
use frisca_os.Prelude.Word.{sub32}
use frisca_os.CString.{poke}
use frisca_os.Keyboard.{handle_interrupt}
use frisca_os.Shell.{print_prompt}
use frisca_os.Timer.{ticks_to_wait}
use frisca_os.Prelude.Run.{ok}
use frisca_os.Dispatch.{Command, Places, say, select, tests}
use frisca_os.Kernel.{Kernel, show, count, timer_irq, keyboard_irq}

-- The wakes and the status bytes that a handler is going to get.
abbrev pub outside : List ℕ → List ℕ → Kernel → Kernel
outside wakes status k = record k { system = record k.system { wakes = wakes; status = status } }

-- One event, while no exception has come; `main` is the address of the main task.
pub data Step (p : Places) (main : ℕ) : Kernel → Kernel → Type 0 where
  key :
      {k after : Kernel}
      → (scancode : ℕ) → (wakes status : List ℕ) → scancode < 256
      → k.system.trap ≡ none
      → keyboard_irq p scancode (outside wakes status k) ≡ ok after
      → Step p main k after
  tick : {k : Kernel} → (saved : ℕ) → k.system.trap ≡ none → Step p main k (timer_irq saved k)
  round :
      {k : Kernel}
      → k.system.trap ≡ none
      → k.tasks.current_task ≢ main
      → Step p main k (record k { system = count k.system })

-- At Enter `testdelay` begins to wait: the keyboard's handler up to the loop of `sleep`.
unfoldable pub delay_start : Places → ℕ → Kernel → Kernel
unfolding show
delay_start p scancode k =
    let s = k.system in
    let bytes = poke (p.command_buffer + s.buffer_idx) 0 s.files.bytes in
    let t = record s {
      files = record s.files { bytes = bytes };
      sent = s.sent ++ (0x20, 0x20) ∷ [];
    } in
    show (say "\n" ∷ say "Waiting 2 seconds...\n" ∷ [], t)
      (record k { shift_pressed = (handle_interrupt scancode k.shift_pressed).1 })

-- It has waited: the rest of the handler.
unfoldable pub delay_end : Kernel → Kernel
unfolding show
delay_end k = show (say "Done!\n" ∷ print_prompt, record k.system { buffer_idx = 0 }) k

-- The key is Enter, and the line is `testdelay`.
pub record Delays (p : Places) (scancode : ℕ) (k : Kernel) : Type 0 where
  pub alive : k.system.trap ≡ none
  pub enter : (handle_interrupt scancode k.shift_pressed).0 ≡ some 10
  pub some_line : k.system.buffer_idx ≢ 0
  pub command : select p tests (delay_start p scancode k).system.files.bytes ≡ ok Command.testdelay

-- The loop of `sleep` that began at `k` ends.
pub record Woken (k woken : Kernel) : Type 0 where
  pub alive : woken.system.trap ≡ none
  pub wait : ℕ
  pub due : ticks_to_wait 2000 k.system.timer ≡ ok wait
  pub waited : wait ≤ sub32 woken.system.timer.ticks k.system.timer.ticks

-- Any number of events; while `testdelay` waits others come, keys among them.
pub data Reach (p : Places) (main : ℕ) : Kernel → Kernel → Type 0 where
  here : {k : Kernel} → Reach p main k k
  next :
      {start k after : Kernel}
      → Reach p main start k
      → Step p main k after
      → Reach p main start after
  delay :
      {start k woken : Kernel}
      → Reach p main start k
      → (scancode : ℕ) → Delays p scancode k
      → Reach p main (delay_start p scancode k) woken
      → Woken k woken
      → Reach p main start (delay_end woken)
