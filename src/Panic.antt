-- ===== src/Panic.antt =====
-- kernel/lib/panic.c and kernel/arch/i386/isr.c: what is printed when the kernel gives up.
-- The results are the calls of the VGA driver, oldest first. Each handler turns the interrupts off before
-- them, and halts after them for good. The local arrays of the printers are arguments.
pub mod PageFault
mod Tests
use Prim.Native.String.{String}
use frisca_os.Prelude.{
  ℕ, Bool, ◌&&◌, not, Option, none, some, List, [], ◌∷◌, ◌++◌, bit_and, get_or, ◌==◌, if◌then◌else◌,
}
use frisca_os.Prelude.Run.{Run, ok, ◌>>=◌}
use frisca_os.Dispatch.{say}
use frisca_os.Print.{uint_text, hex_text}
use frisca_os.Vga.Calls.{Call}

-- White is 15 and red 4.
abbrev pub red_screen : List Call
red_screen = Call.color 15 4 ∷ Call.blank ∷ []

-- The lines around the title.
abbrev pub banner : String → List Call
banner title =
    say "\n\n"
    ∷ say "+==========================================+\n"
    ∷ say title
    ∷ say "+==========================================+\n"
    ∷ say "\n"
    ∷ []

abbrev pub halted : List Call
halted = say "\nSystem halted. Please reboot.\n" ∷ []

-- The message of `kernel_panic`, if the pointer is not NULL.
abbrev message : Option (List ℕ) → List Call
message none = []
message (some msg) = Call.text msg ∷ say "\n" ∷ []

kernel_panic : Option (List ℕ) → List Call
kernel_panic msg =
    red_screen ++ banner "|          *** KERNEL PANIC ***            |\n" ++ message msg ++ halted

-- `error_code & mask` as a condition.
abbrev pub flag : ℕ → ℕ → Bool
flag error_code mask = not (bit_and error_code mask == 0)

-- The error code in words.
pub decode : ℕ → List Call
decode error_code =
    say (if flag error_code 0x1 then "protection" else "not-present")
      ∷ say ", "
      ∷ say (if flag error_code 0x2 then "write" else "read")
      ∷ say ", "
      ∷ say (if flag error_code 0x4 then "user" else "kernel")
      ∷ []
    ++ (if flag error_code 0x8 then say ", reserved-bit" ∷ [] else [])
    ++ (if flag error_code 0x10 then say ", instruction-fetch" ∷ [] else [])

abbrev pub not_mapped_hint : List Call
not_mapped_hint =
    say "Hint: The page is not mapped. Common causes:\n"
    ∷ say "  - Dereferencing a NULL or wild pointer\n"
    ∷ say "  - Accessing memory beyond the identity-mapped 16 MB\n"
    ∷ say "  - Forgetting to map a page before using it\n"
    ∷ []

pub page_fault_hint : ℕ → List Call
page_fault_hint error_code =
    if not (flag error_code 0x1)
    then not_mapped_hint
    else if flag error_code 0x1 && flag error_code 0x2
    then say "Hint: Write to a read-only page.\n" ∷ []
    else if flag error_code 0x4
    then say "Hint: User-mode access to kernel-only memory.\n" ∷ []
    else []

-- `page_fault_handler`, with the address in CR2.
pub page_fault_handler : List ℕ → ℕ → ℕ → List Call
unfolding decode page_fault_hint
page_fault_handler buf fault_addr error_code =
    red_screen
    ++ banner "|          *** PAGE FAULT ***              |\n"
    ++ say "Faulting address: 0x" ∷ Call.text (hex_text fault_addr buf) ∷ say "\n" ∷ []
    ++ say "Error code:       0x" ∷ Call.text (hex_text error_code buf) ∷ say "  (" ∷ []
    ++ decode error_code
    ++ say ")\n\n" ∷ []
    ++ page_fault_hint error_code
    ++ halted

-- What `isr_handler` reads of `registers_t`.
record Registers : Type 0 where
  int_no : ℕ
  err_code : ℕ
  eip : ℕ
  cs : ℕ
  eflags : ℕ

-- The cases 0 to 21 of the switch.
abbrev names : List String
names =
    "Divide-by-zero" ∷ "Debug" ∷ "Non-maskable interrupt" ∷ "Breakpoint" ∷ "Overflow"
    ∷ "Bound range exceeded" ∷ "Invalid opcode" ∷ "Device not available" ∷ "Double fault"
    ∷ "Coprocessor segment overrun" ∷ "Invalid TSS" ∷ "Segment not present" ∷ "Stack-segment fault"
    ∷ "General protection fault" ∷ "Page fault" ∷ "Reserved" ∷ "x87 floating-point exception"
    ∷ "Alignment check" ∷ "Machine check" ∷ "SIMD floating-point exception"
    ∷ "Virtualization exception" ∷ "Control protection exception" ∷ []

-- The switch.
exception_name : ℕ → String
exception_name int_no =
    if int_no == 30 then "Security exception" else get_or names int_no "Reserved exception"

exception_hint : ℕ → List Call
exception_hint int_no =
    if int_no == 0
    then say "\nHint: Division by zero. Check your math.\n" ∷ []
    else if int_no == 6
    then say "\nHint: Bad instruction. EIP may point into data, or\n"
      ∷ say "      the instruction is invalid for this CPU.\n"
      ∷ []
    else if int_no == 8
    then say "\nHint: Double fault. Usually means an exception handler\n"
      ∷ say "      itself crashed. Check the IDT and stack.\n"
      ∷ []
    else if int_no == 13
    then say "\nHint: General protection fault. Common causes:\n"
      ∷ say "  - Accessing unmapped segment\n"
      ∷ say "  - Writing to read-only segment\n"
      ∷ say "  - Privilege violation\n"
      ∷ []
    else []

-- `isr_handler` for another vector than 14, with the arrays of print_uint and print_hex.
report : List ℕ → List ℕ → Registers → Run (List Call)
unfolding exception_name exception_hint
report digits buf regs = do
  number ← uint_text regs.int_no digits
  ok (
      red_screen
      ++ banner "|       *** CPU EXCEPTION ***              |\n"
      ++ say "Exception: "
        ∷ say (exception_name regs.int_no)
        ∷ say " (#"
        ∷ Call.text number
        ∷ say ")\n"
        ∷ []
      ++ say "Error code: 0x" ∷ Call.text (hex_text regs.err_code buf) ∷ say "\n" ∷ []
      ++ say "EIP: 0x" ∷ Call.text (hex_text regs.eip buf) ∷ say "\n" ∷ []
      ++ say "CS:  0x" ∷ Call.text (hex_text regs.cs buf) ∷ []
      ++ say "  EFLAGS: 0x" ∷ Call.text (hex_text regs.eflags buf) ∷ say "\n" ∷ []
      ++ exception_hint regs.int_no
      ++ halted)

-- `isr_handler`, with the address in CR2; `page_fault_handler` does not return.
isr_handler : List ℕ → List ℕ → ℕ → Registers → Run (List Call)
unfolding report
isr_handler digits buf cr2 regs =
    if regs.int_no == 14
    then ok (page_fault_handler buf cr2 regs.err_code)
    else report digits buf regs
