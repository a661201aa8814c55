-- ===== src/Shell/Tests.antt =====
-- Runs of kernel/shell.c over the sample table, and its theorems there.
mod Lines
use frisca_os.Prelude.{
  ℕ, zero, suc, ◌<◌, ◌≡◌, inl, length-replicate, refl, none, false, List, [], ◌∷◌, length, arith,
  replicate,
}
use frisca_os.Prelude.Ascii.{codes}
use frisca_os.Prelude.Run.{ok, ◌>>=◌}
use frisca_os.CString.Text.{HasText}
use frisca_os.Heap.Provider.{heap_allocator}
use frisca_os.Vfs.Files.{Outside}
use frisca_os.Vfs.Sample.{sample, sample_blocks, sample_files, sample_line, sample-Represents}
use frisca_os.Pmm.{Pmm, init}
use frisca_os.Pmm.Init.{init-Boots}
use frisca_os.Command.Sound.{Roomy, Sound}
use frisca_os.Shell.Returns.{Answered, Entered, shell_input-Entered}
use frisca_os.Timer.Enough.{total}
use frisca_os.Timer.Sleep.{Timely}
use frisca_os.Dispatch.{Places, System, say, tests}
use frisca_os.Dispatch.Choose.{choose}
use frisca_os.Command.{run_command}
use frisca_os.Shell.{shell_input, finish}
use frisca_os.Shell.Edit.{Typed, Edited, shell_input-Edited}
use frisca_os.Shell.Enter.{terminated, shell_input-choose}
use frisca_os.Shell.Shown.{Shown, prompts, content_of, shell_input-Shown}
use frisca_os.Shell.Written.{Written, shell_input-Written}

abbrev places : Places
places = record {
  heap_start = 0x100000;
  table = 0x2000;
  command_buffer = 0x4000;
  literal = 0x1800;
  scratch = replicate 12 0;
  fuel = 300;
}

abbrev no_memory : Pmm
no_memory = record { bitmap = replicate 128 0; max_blocks = 0; used_blocks = 0 }

-- The line is typed, and not yet terminated.
abbrev typed : List ℕ → System
typed line = record {
  buffer_idx = length line;
  files = sample line;
  timer = record { ticks = 0; target_freq = 100; need_reschedule = false };
  pmm = init 0 no_memory;
  bg_counter = 0;
  wakes = [];
  status = [];
  sent = [];
  trap = none;
}

abbrev write_g : List ℕ
write_g = codes "write g yo"

abbrev cat_f : List ℕ
cat_f = codes "cat f"

write_g-Typed : Typed places (typed write_g) write_g
write_g-Typed = record {
  count = refl;
  bounded = omega arith;
  bytes = λ i lt. sample_line write_g i (omega arith);
}

shell_input-Edited_example :
    Edited places 8 (typed write_g) write_g (shell_input places 8 (typed write_g))
shell_input-Edited_example =
    shell_input-Edited places (typed write_g) write_g write_g-Typed 8 (omega arith)

cat_f-Typed : Typed places (typed cat_f) cat_f
cat_f-Typed = record {
  count = refl;
  bounded = omega arith;
  bytes = λ i lt. sample_line cat_f i (omega arith);
}

beside_table : Outside (heap_allocator 0x100000) 0x2000 0x4000 256
beside_table = record { apart = omega arith; below = omega arith }

shell_input-Written_example :
    Written places
      (typed write_g)
      sample_files
      (codes "g")
      (codes "yo")
      sample_blocks
      (shell_input places 10 (typed write_g))
shell_input-Written_example =
    shell_input-Written places (typed write_g) sample_files (codes "g") (codes "yo") sample_blocks
      write_g-Typed (omega arith) (sample-Represents write_g) (omega arith, tt) (omega arith)
      (omega arith) beside_table (omega arith) (omega arith) (omega arith) refl

small_contents : (k : ℕ) → k < 1 → length (content_of sample_files k) < 300
small_contents zero lt = omega arith
small_contents (suc k) lt = absurd (omega arith)

shell_input-Shown_example :
    Shown places sample_files
      (codes "f")
      (prompts places sample_files (codes "f") (terminated places (typed cat_f) cat_f))
      (shell_input places 10 (typed cat_f))
shell_input-Shown_example =
    shell_input-Shown places sample_files (codes "f") (typed cat_f) sample_blocks cat_f-Typed
      (omega arith) (sample-Represents cat_f) (omega arith) beside_table (omega arith) (omega arith)
      (omega arith) small_contents refl

shell_input-choose_example :
    HasText (terminated places (typed cat_f) cat_f).files.bytes 0x4000 cat_f
    × (shell_input places 10 (typed cat_f) ≡ (do
      o ← run_command places (choose tests cat_f) (terminated places (typed cat_f) cat_f)
      let done = finish o.1.trap o
      ok (say "\n" ∷ done.0, done.1)))
shell_input-choose_example =
    shell_input-choose places (typed cat_f) cat_f cat_f-Typed (omega arith) (omega arith)
      (omega arith) (omega arith)

-- Fuel for a string as long as the heap.
abbrev roomy : Places
roomy = record places { fuel = 20000 }

roomy-Roomy : Roomy roomy
roomy-Roomy = record {
  scratch = length-replicate {A = ℕ} 12 0;
  beside = beside_table;
  below = omega arith;
  literals = inl (omega arith);
  fuel = omega arith;
}

-- A tick at each wake.
abbrev wait : System
wait = record (typed (codes "testdelay")) { wakes = replicate 250 1 }

wait-Sound : Sound roomy wait sample_blocks sample_files
wait-Sound = record {
  table = sample-Represents (codes "testdelay");
  memory = (init-Boots 0 no_memory (length-replicate {A = ℕ} 128 0)).valid;
  ticks = omega arith;
  counter = omega arith;
  frequency = refl;
  alive = refl;
}

wait-Typed : Typed roomy wait (codes "testdelay")
wait-Typed = record {
  count = refl;
  bounded = omega arith;
  bytes = λ i lt. sample_line (codes "testdelay") i (omega arith);
}

one_each : (n : ℕ) → Timely 200 (replicate n 1) × (total (replicate n 1) ≡ n)
one_each zero = (tt, refl)
one_each (suc n) = let rest = one_each n in ((omega arith, rest.0), omega (arith, rest.1))

wait-Answered : Answered (choose tests (codes "testdelay")) wait
unfolding choose
wait-Answered = (λ e. let each = one_each 250 in (each.0, omega (arith, each.1)), λ e. absurd (cc))

shell_input-Entered_example :
    Entered roomy sample_blocks sample_files
      (choose tests (codes "testdelay"))
      (shell_input roomy 10 wait)
shell_input-Entered_example =
    shell_input-Entered roomy roomy-Roomy wait sample_blocks sample_files (codes "testdelay")
      wait-Sound wait-Typed (omega arith) (omega arith) wait-Answered
