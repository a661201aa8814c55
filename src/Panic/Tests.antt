-- ===== src/Panic/Tests.antt =====
-- A write of the kernel to 0xDEADBEEF, which is not mapped, in kernel/lib/panic.c.
use frisca_os.Prelude.{◌≡◌, false, true, [], ◌∷◌, ◌++◌, replicate}
use frisca_os.Dispatch.{say}
use frisca_os.Print.{hex_text}
use frisca_os.Vga.Calls.{Call}
use frisca_os.Panic.{red_screen, banner, halted, page_fault_handler}
use frisca_os.Panic.PageFault.{Fault, error_code, words, hint, page_fault_handler-words}

abbrev crash : Fault
crash = record { protection = false; write = true; user = false; reserved = false; fetch = false }

page_fault_handler-words_example :
    page_fault_handler (replicate 11 0) 0xdeadbeef (error_code crash 0)
    ≡ red_screen
      ++ banner "|          *** PAGE FAULT ***              |\n"
      ++ say "Faulting address: 0x"
        ∷ Call.text (hex_text 0xdeadbeef (replicate 11 0))
        ∷ say "\n"
        ∷ []
      ++ say "Error code:       0x"
        ∷ Call.text (hex_text (error_code crash 0) (replicate 11 0))
        ∷ say "  ("
        ∷ []
      ++ words crash
      ++ say ")\n\n" ∷ []
      ++ hint false true false
      ++ halted
page_fault_handler-words_example = page_fault_handler-words (replicate 11 0) 0xdeadbeef 0 crash
