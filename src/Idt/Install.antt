-- ===== src/Idt/Install.antt =====
-- The table that `idt_init` of kernel/arch/i386/idt.c installs.
use frisca_os.Prelude.{
  ℕ, ◌*◌, ◌^◌, ◌≤◌, ◌<◌, ◌≡◌, refl, sym, ◌∙◌, true, false, List, some, arith, length, ℕ_discrete,
  ◌==◌, if◌then◌else◌,
}
use mathlib.Core.Path.{subst}
use frisca_os.Idt.{Entry, Stubs, Cpu, set_gate, zero_gates, exception_gates, idt_init, entry_size}
use frisca_os.Idt.Gates.{
  absent, gate, Leads, length-set_gate, set_gate-Leads, set_gate_ne, length-zero_gates,
  zero_gates_all, length-exception_gates, exception_gates_out, exception_gates-Leads,
}

-- The stub that serves a vector.
unfoldable pub stub_of : Stubs → ℕ → ℕ
stub_of h v =
    if v == 0x20 then h.irq0_handler else if v == 0x21 then h.irq1_handler else h.isr_handler v

-- The table after `idt_init`: the vectors 0 to 33 lead to their stubs and no other gate is present; the
-- CPU has the table's address and its size, and interrupts are on.
pub record Installed (h : Stubs) (address : ℕ) (c : Cpu) : Type 0 where
  pub served : (v : ℕ) → v < 34 → Leads (gate c.idt v) (stub_of h v)
  pub rest_absent : (v : ℕ) → 34 ≤ v → v < 256 → gate c.idt v ≡ absent
  pub table : c.loaded ≡ some (record { limit = 2047; base = address })
  pub whole : length c.idt * entry_size ≡ 2048
  pub enabled : c.interrupts ≡ true

-- The addresses of the stubs are words.
abbrev pub Words : Stubs → Type 0
Words h =
    ((v : ℕ) → h.isr_handler v < 2 ^ 32) × (h.irq0_handler < 2 ^ 32) × (h.irq1_handler < 2 ^ 32)

stub_of_isr : (h : Stubs) (v : ℕ) → v < 32 → stub_of h v ≡ h.isr_handler v
unfolding stub_of
stub_of_isr h v lt =
    let f : (v == 0x20) ≡ false = ground arith in
    let g : (v == 0x21) ≡ false = ground arith in rw (f, g) refl

module _ (h : Stubs) (words : Words h) (idt : List Entry) (full : length idt ≡ 256) where
  abbrev zeroed : List Entry
  zeroed = zero_gates 256 0 idt

  abbrev exceptions : List Entry
  exceptions = exception_gates 32 0 h zeroed

  abbrev timer_set : List Entry
  timer_set = set_gate 0x20 h.irq0_handler 0x08 0x8e exceptions

  length-exceptions : length exceptions ≡ 256
  length-exceptions = length-exception_gates 32 0 h zeroed ∙ length-zero_gates 256 0 idt ∙ full

  length-timer_set : length timer_set ≡ 256
  length-timer_set = length-set_gate 0x20 h.irq0_handler 0x08 0x8e exceptions ∙ length-exceptions

  serves :
      (v : ℕ)
      → v < 34
      → Leads (gate (set_gate 0x21 h.irq1_handler 0x08 0x8e timer_set) v) (stub_of h v)
  unfolding stub_of
  serves v lt = elim (ℕ_discrete v 0x21) [
    | yes e ↦
        rw e
          (set_gate-Leads 0x21 h.irq1_handler timer_set (omega (arith, length-timer_set)) words.2)
    | no n ↦
        subst (λ t. Leads t (stub_of h v))
          (sym (set_gate_ne 0x21 v h.irq1_handler 0x08 0x8e timer_set (λ e. n (sym e))))
          (elim (ℕ_discrete v 0x20) [
            | yes e ↦ rw e (
                set_gate-Leads 0x20 h.irq0_handler exceptions (omega (arith, length-exceptions))
                  words.1)
            | no m ↦
                subst (λ t. Leads t (stub_of h v))
                  (sym (set_gate_ne 0x20 v h.irq0_handler 0x08 0x8e exceptions (λ e. m (sym e))))
                  (subst (Leads (gate exceptions v)) (sym (stub_of_isr h v (omega arith))) (
                    exception_gates-Leads 32 0 v h zeroed (omega arith) (omega arith)
                      (omega (arith, length-zero_gates 256 0 idt)) (words.0 v)))
          ])
  ]

  leaves_absent :
      (v : ℕ)
      → 34 ≤ v
      → v < 256
      → gate (set_gate 0x21 h.irq1_handler 0x08 0x8e timer_set) v ≡ absent
  leaves_absent v lo hi =
      set_gate_ne 0x21 v h.irq1_handler 0x08 0x8e timer_set (omega arith)
      ∙ set_gate_ne 0x20 v h.irq0_handler 0x08 0x8e exceptions (omega arith)
      ∙ exception_gates_out 32 0 v h zeroed (omega arith)
      ∙ zero_gates_all 256 0 v idt (omega arith) full (omega arith) (omega arith)

-- `idt_init` over the table of 256 entries, whatever they hold, with stubs whose addresses are words.
pub idt_init-Installed :
    (h : Stubs) (address : ℕ) (c : Cpu)
    → Words h
    → length c.idt ≡ 256
    → Installed h address (idt_init h address c).0
unfolding idt_init
idt_init-Installed h address c words full = record {
  served = serves h words c.idt full;
  rest_absent = leaves_absent h words c.idt full;
  table = refl;
  whole = omega (
    arith,
    length-set_gate 0x21 h.irq1_handler 0x08 0x8e (timer_set h words c.idt full),
    length-timer_set h words c.idt full,
  );
  enabled = refl;
}
