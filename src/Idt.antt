-- ===== src/Idt.antt =====
-- kernel/arch/i386/idt.c: the interrupt descriptor table, the PICs, and the interrupt handlers.
-- The addresses of the assembly stubs and of `idt` are parameters. A call of `outb` is a pair of port
-- and byte in a list, oldest first. `lidt` and `sti` write the last two fields of the state. A write
-- outside of the table, of which there is none, changes nothing here.
pub mod Gates
pub mod Install
pub mod Pic
mod Tests
use frisca_os.Prelude.{
  ℕ, zero, suc, ◌+◌, ◌-◌, ◌*◌, ◌/◌, ◌^◌, Bool, true, false, List, [], ◌∷◌, ◌++◌, Option, none, some,
  bit_and, set,
}
use frisca_os.Prelude.Word.{u8, u16}
use frisca_os.Timer
use frisca_os.Timer.{Timer}
use frisca_os.Keyboard.{handle_interrupt}

-- `struct idt_entry`
pub record Entry : Type 0 where
  pub base_low : ℕ
  pub sel : ℕ
  pub always0 : ℕ
  pub flags : ℕ
  pub base_high : ℕ

-- `struct idt_ptr`
pub record Pointer : Type 0 where
  pub limit : ℕ
  pub base : ℕ

-- The addresses of the stubs in kernel/arch/i386/isr_stub.asm and interrupt.asm.
pub record Stubs : Type 0 where
  pub isr_handler : ℕ → ℕ
  pub irq0_handler : ℕ
  pub irq1_handler : ℕ

abbrev pub Writes : Type 0
Writes = List (ℕ × ℕ)

-- The static variables, the pointer that `lidt` loaded, if any, and the interrupt flag.
pub record Cpu : Type 0 where
  pub idt : List Entry
  pub idtp : Pointer
  pub loaded : Option Pointer
  pub interrupts : Bool

-- PIC1_COMMAND
abbrev pub pic1_command : ℕ
pic1_command = 0x20

-- PIC1_DATA
abbrev pub pic1_data : ℕ
pic1_data = 0x21

-- PIC2_COMMAND
abbrev pub pic2_command : ℕ
pic2_command = 0xa0

-- PIC2_DATA
abbrev pub pic2_data : ℕ
pic2_data = 0xa1

-- `idt_set_gate`
pub set_gate : ℕ → ℕ → ℕ → ℕ → List Entry → List Entry
set_gate num base sel flags idt = set idt num (record {
  base_low = u16 (bit_and base 0xffff);
  sel = sel;
  always0 = 0;
  flags = flags;
  base_high = u16 (bit_and (base / 2 ^ 16) 0xffff);
})

-- `keyboard_handler_main`: the writes, and what the keyboard driver does with the scancode.
unfoldable pub keyboard_handler_main : ℕ → Bool → Writes × (Option ℕ × Bool)
keyboard_handler_main scancode shift = ((0x20, 0x20) ∷ [], handle_interrupt scancode shift)

-- `timer_handler_main`
unfoldable pub timer_handler_main : Timer → Timer × Writes
timer_handler_main t = let (u, sent) = Timer.handler t in (u, sent ++ (0x20, 0x20) ∷ [])

pub pic_remap : Writes
pic_remap =
    (pic1_command, 0x11)
    ∷ (pic2_command, 0x11)
    ∷ (pic1_data, 0x20)
    ∷ (pic2_data, 0x28)
    ∷ (pic1_data, 0x04)
    ∷ (pic2_data, 0x02)
    ∷ (pic1_data, 0x01)
    ∷ (pic2_data, 0x01)
    ∷ (pic1_data, 0xfc)
    ∷ (pic2_data, 0xff)
    ∷ []

-- The loop that zeroes the gates from `i` on, with `n` rounds left.
pub zero_gates : ℕ → ℕ → List Entry → List Entry
unfolding set_gate
zero_gates zero i idt = idt
zero_gates (suc n) i idt = zero_gates n (i + 1) (set_gate (u8 i) 0 0 0 idt)

-- The gates of the CPU exceptions from number `i` on: the source has one line for each.
pub exception_gates : ℕ → ℕ → Stubs → List Entry → List Entry
unfolding set_gate
exception_gates zero i h idt = idt
exception_gates (suc n) i h idt =
    exception_gates n (i + 1) h (set_gate i (h.isr_handler i) 0x08 0x8e idt)

-- sizeof(struct idt_entry), which is packed
abbrev pub entry_size : ℕ
entry_size = 8

-- `idt_init`, with the address of the table.
pub idt_init : Stubs → ℕ → Cpu → Cpu × Writes
unfolding zero_gates exception_gates set_gate pic_remap
idt_init h address c =
    let p : Pointer = record { limit = u16 (entry_size * 256 - 1); base = address } in
    let exceptions = exception_gates 32 0 h (zero_gates 256 0 c.idt) in
    let idt =
      set_gate 0x21 h.irq1_handler 0x08 0x8e (set_gate 0x20 h.irq0_handler 0x08 0x8e exceptions) in
    (record { idt = idt; idtp = p; loaded = some p; interrupts = true }, pic_remap)
