-- ===== src/Idt/Tests.antt =====
-- Runs of kernel/arch/i386/idt.c, over a table that holds no gate and controllers in any state.
use frisca_os.Prelude.{◌≡◌, false, none, some, arith, replicate, length-replicate}
use frisca_os.Idt.{Entry, Stubs, Cpu, pic_remap, idt_init}
use frisca_os.Idt.Gates.{absent}
use frisca_os.Idt.Install.{Installed, idt_init-Installed}
use frisca_os.Idt.Pic.{Pic, receive, raises, pic_remap-raises}

abbrev stubs : Stubs
stubs = record { isr_handler = λ v. 0x8000; irq0_handler = 0x12345; irq1_handler = 0xfedcba98 }

abbrev boot : Cpu
boot = record {
  idt = replicate 256 absent;
  idtp = record { limit = 0; base = 0 };
  loaded = none;
  interrupts = false;
}

idt_init-Installed_example : Installed stubs 0x9000 (idt_init stubs 0x9000 boot).0
idt_init-Installed_example =
    idt_init-Installed stubs 0x9000 boot (λ v. omega arith, omega arith, omega arith)
      (length-replicate {A = Entry} 256 absent)

-- As the BIOS leaves them: the vectors 8 and 0x70, nothing masked.
abbrev bios_master : Pic
bios_master = record { awaited = 0; offset = 0x08; wiring = 0x04; mode = 0x01; mask = 0 }

abbrev bios_slave : Pic
bios_slave = record bios_master { offset = 0x70; wiring = 0x02 }

pic_remap-raises_example :
    (raises (receive pic_remap (bios_master, bios_slave)).0 1 ≡ some 0x21)
    × (raises (receive pic_remap (bios_master, bios_slave)).1 1 ≡ none)
pic_remap-raises_example = pic_remap-raises (bios_master, bios_slave) 1 (omega arith)
