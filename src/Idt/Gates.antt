-- ===== src/Idt/Gates.antt =====
-- The gates that kernel/arch/i386/idt.c sets, as the CPU reads them.
use frisca_os.Prelude.{
  ℕ, zero, suc, ◌+◌, ◌*◌, ◌/◌, ◌%◌, ◌^◌, ◌≤◌, ◌<◌, ◌≡◌, ◌≢◌, ◌⊎◌, refl, ap, sym, ◌∙◌, List, arith,
  length, get_or, length-set, get_or-set_self, get_or-set_ne, ℕ_discrete, bit_and,
}
use mathlib.Core.Path.{subst}
use frisca_os.Prelude.Bits.{bit_and_mask}
use frisca_os.Prelude.Word.{u8}
use frisca_os.Idt.{Entry, Stubs, set_gate, zero_gates, exception_gates}

-- A gate that is not present.
abbrev pub absent : Entry
absent = record { base_low = 0; sel = 0; always0 = 0; flags = 0; base_high = 0 }

abbrev pub gate : List Entry → ℕ → Entry
gate idt v = get_or idt v absent

-- Where the CPU jumps to through a gate.
abbrev target : Entry → ℕ
target e = e.base_high * 2 ^ 16 + e.base_low

-- A gate to `a`: in the kernel's code segment, present, of ring 0, a 32-bit interrupt gate.
pub record Leads (e : Entry) (a : ℕ) : Type 0 where
  pub to : target e ≡ a
  pub segment : e.sel ≡ 0x08
  pub kind : e.flags ≡ 0x8e
  pub reserved : e.always0 ≡ 0

abbrev gate_to : ℕ → ℕ → ℕ → Entry
gate_to base sel flags = record {
  base_low = bit_and base 0xffff % 2 ^ 16;
  sel = sel;
  always0 = 0;
  flags = flags;
  base_high = bit_and (base / 2 ^ 16) 0xffff % 2 ^ 16;
}

halves : (base : ℕ) → base < 2 ^ 32 → target (gate_to base 0x08 0x8e) ≡ base
halves base lt = omega (arith, bit_and_mask 16 base, bit_and_mask 16 (base / 2 ^ 16))

pub length-set_gate :
    (num base sel flags : ℕ) (idt : List Entry)
    → length (set_gate num base sel flags idt) ≡ length idt
unfolding set_gate
length-set_gate num base sel flags idt = length-set idt num (gate_to base sel flags)

pub set_gate-Leads :
    (num base : ℕ) (idt : List Entry)
    → num < length idt
    → base < 2 ^ 32
    → Leads (gate (set_gate num base 0x08 0x8e idt) num) base
unfolding set_gate
set_gate-Leads num base idt lt word =
    let e = get_or-set_self idt num (gate_to base 0x08 0x8e) absent lt in
    subst (λ t. Leads t base) (sym e)
      (record { to = halves base word; segment = refl; kind = refl; reserved = refl })

pub set_gate_ne :
    (num v base sel flags : ℕ) (idt : List Entry)
    → num ≢ v
    → gate (set_gate num base sel flags idt) v ≡ gate idt v
unfolding set_gate
set_gate_ne num v base sel flags idt ne = get_or-set_ne idt num v (gate_to base sel flags) absent ne

pub length-zero_gates : (n i : ℕ) (idt : List Entry) → length (zero_gates n i idt) ≡ length idt
unfolding zero_gates
length-zero_gates zero i idt = refl
length-zero_gates (suc n) i idt =
    length-zero_gates n (i + 1) (set_gate (u8 i) 0 0 0 idt) ∙ length-set_gate (u8 i) 0 0 0 idt

zero_gates_below :
    (n i v : ℕ) (idt : List Entry) → i + n ≤ 256 → v < i → gate (zero_gates n i idt) v ≡ gate idt v
unfolding zero_gates
zero_gates_below zero i v idt le lt = refl
zero_gates_below (suc n) i v idt le lt =
    zero_gates_below n (i + 1) v (set_gate (u8 i) 0 0 0 idt) (omega arith) (omega arith)
    ∙ set_gate_ne (u8 i) v 0 0 0 idt (omega arith)

set_gate_zero : (i : ℕ) (idt : List Entry) → i < length idt → gate (set_gate i 0 0 0 idt) i ≡ absent
unfolding set_gate
set_gate_zero i idt lt = get_or-set_self idt i absent absent lt

pub zero_gates_all :
    (n i v : ℕ) (idt : List Entry)
    → i + n ≤ 256
    → length idt ≡ 256
    → i ≤ v
    → v < i + n
    → gate (zero_gates n i idt) v ≡ absent
unfolding zero_gates
zero_gates_all zero i v idt le full lo hi = absurd (omega arith)
zero_gates_all (suc n) i v idt le full lo hi =
    let byte : u8 i ≡ i = omega arith in
    let idt' = set_gate (u8 i) 0 0 0 idt in
    elim (ℕ_discrete i v) [
      | yes e ↦
          zero_gates_below n (i + 1) v idt' (omega arith) (omega arith)
          ∙ ap (λ t. gate (set_gate t 0 0 0 idt) v) (byte ∙ e)
          ∙ set_gate_zero v idt (omega arith)
      | no ne ↦
          zero_gates_all n (i + 1) v idt' (omega arith) (length-set_gate (u8 i) 0 0 0 idt ∙ full)
            (omega arith) (omega arith)
    ]

pub length-exception_gates :
    (n i : ℕ) (h : Stubs) (idt : List Entry) → length (exception_gates n i h idt) ≡ length idt
unfolding exception_gates
length-exception_gates zero i h idt = refl
length-exception_gates (suc n) i h idt =
    length-exception_gates n (i + 1) h (set_gate i (h.isr_handler i) 0x08 0x8e idt)
    ∙ length-set_gate i (h.isr_handler i) 0x08 0x8e idt

pub exception_gates_out :
    (n i v : ℕ) (h : Stubs) (idt : List Entry)
    → (v < i) ⊎ (i + n ≤ v)
    → gate (exception_gates n i h idt) v ≡ gate idt v
unfolding exception_gates
exception_gates_out zero i v h idt o = refl
exception_gates_out (suc n) i v h idt o =
    exception_gates_out n (i + 1) v h (set_gate i (h.isr_handler i) 0x08 0x8e idt) (omega arith)
    ∙ set_gate_ne i v (h.isr_handler i) 0x08 0x8e idt (omega arith)

pub exception_gates-Leads :
    (n i v : ℕ) (h : Stubs) (idt : List Entry)
    → i ≤ v
    → v < i + n
    → v < length idt
    → h.isr_handler v < 2 ^ 32
    → Leads (gate (exception_gates n i h idt) v) (h.isr_handler v)
unfolding exception_gates
exception_gates-Leads zero i v h idt lo hi lt word = absurd (omega arith)
exception_gates-Leads (suc n) i v h idt lo hi lt word =
    let idt' = set_gate i (h.isr_handler i) 0x08 0x8e idt in
    elim (ℕ_discrete i v) [
      | yes e ↦
          subst (λ t. Leads t (h.isr_handler v))
            (sym (
              exception_gates_out n (i + 1) v h idt' (omega arith)
              ∙ ap (λ t. gate (set_gate t (h.isr_handler t) 0x08 0x8e idt) v) e))
            (set_gate-Leads v (h.isr_handler v) idt lt word)
      | no ne ↦
          exception_gates-Leads n (i + 1) v h idt' (omega arith) (omega arith)
            (rw length-set_gate lt) word
    ]
