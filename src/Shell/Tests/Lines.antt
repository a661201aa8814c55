-- ===== src/Shell/Tests/Lines.antt =====
-- Lines that kernel/shell.c gets one after the other, over the sample table.
use frisca_os.Prelude.{ℕ, ◌≡◌, length-replicate, refl, [], ◌∷◌, ◌++◌, arith}
use frisca_os.Prelude.Ascii.{codes}
use frisca_os.Prelude.Run.{ok, ◌>>=◌}
use frisca_os.Vfs.Sample.{sample_blocks, sample_files, sample-Represents}
use frisca_os.Pmm.Init.{init-Boots}
use frisca_os.Command.Sound.{Sound}
use frisca_os.Dispatch.{System, say, tests}
use frisca_os.Dispatch.Choose.{choose}
use frisca_os.Command.{run_command}
use frisca_os.Shell.{shell_input, finish}
use frisca_os.Shell.Edit.{Typed}
use frisca_os.Shell.Enter.{terminated}
use frisca_os.Shell.Again.{shell_input-again}
use frisca_os.Shell.ReadBack.{ReadBack, two_lines, session-ReadBack}
use frisca_os.Shell.Session.{chars, session}
use frisca_os.Shell.Tests.{typed, no_memory, roomy, roomy-Roomy, wait, wait-Sound, wait-Typed}

nothing-Sound : Sound roomy (typed []) sample_blocks sample_files
nothing-Sound = record {
  table = sample-Represents [];
  memory = (init-Boots 0 no_memory (length-replicate {A = ℕ} 128 0)).valid;
  ticks = omega arith;
  counter = omega arith;
  frequency = refl;
  alive = refl;
}

nothing-Typed : Typed roomy (typed []) []
nothing-Typed = record { count = refl; bounded = omega arith; bytes = λ i lt. absurd (omega arith) }

session-ReadBack_example :
    ReadBack roomy roomy-Roomy
      (codes "g")
      sample_blocks
      sample_files
      (codes "yo")
      (session roomy (two_lines roomy roomy-Roomy (codes "g") (codes "yo") sample_files) (typed []))
session-ReadBack_example =
    session-ReadBack roomy roomy-Roomy (codes "g") (codes "yo") sample_files sample_blocks
      (typed []) nothing-Typed nothing-Sound (omega arith) (omega arith) (omega arith, tt)
      (omega arith) (omega arith) (omega arith) (omega arith)

-- Enter while `testdelay` waits.
shell_input-again_example :
    (after : System) × (session roomy [] (terminated roomy wait (codes "testdelay"))
      ≡ ok (chars [], after))
    × (shell_input roomy 10 after ≡ (do
      o ←
          run_command roomy
            (choose tests (codes "testdelay" ++ []))
            (terminated roomy after (codes "testdelay" ++ []))
      let done = finish o.1.trap o
      ok (say "\n" ∷ done.0, done.1)))
shell_input-again_example =
    shell_input-again roomy roomy-Roomy sample_blocks sample_files wait (codes "testdelay") []
      wait-Typed wait-Sound (omega arith) (omega arith) tt (omega arith)
