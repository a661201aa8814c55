-- ===== src/Panic/PageFault.antt =====
-- How page_fault_handler of kernel/lib/panic.c reads the error code of a page fault.
use frisca_os.Prelude.{
  ℕ, ◌+◌, ◌*◌, ◌^◌, ◌<◌, ◌≡◌, refl, ap, ◌∙◌, Bool, true, false, List, [], ◌∷◌, ◌++◌, bit_and, arith,
  ◌==◌, if◌then◌else◌,
}
use frisca_os.Prelude.Bits.{bit_at, bit_and-pow}
use native.Mathlib.Nat.{one-le-pow}
use frisca_os.Dispatch.{say}
use frisca_os.Print.{hex_text}
use frisca_os.Vga.Calls.{Call}
use frisca_os.Panic.{
  red_screen, banner, halted, flag, decode, not_mapped_hint, page_fault_hint, page_fault_handler,
}

-- A page fault as the processor reports it.
pub record Fault : Type 0 where
  pub protection : Bool
  pub write : Bool
  pub user : Bool
  pub reserved : Bool
  pub fetch : Bool

abbrev bit : Bool → ℕ
bit false = 0
bit true = 1

-- Its error code: bits 0 to 4, with other bits above.
abbrev pub error_code : Fault → ℕ → ℕ
error_code f rest =
    bit f.protection
    + 2 * bit f.write
    + 4 * bit f.user
    + 8 * bit f.reserved
    + 16 * bit f.fetch
    + 32 * rest

-- The words for it.
abbrev pub words : Fault → List Call
words f =
    say (if f.protection then "protection" else "not-present")
      ∷ say ", "
      ∷ say (if f.write then "write" else "read")
      ∷ say ", "
      ∷ say (if f.user then "user" else "kernel")
      ∷ []
    ++ (if f.reserved then say ", reserved-bit" ∷ [] else [])
    ++ (if f.fetch then say ", instruction-fetch" ∷ [] else [])

-- The hint for it: on a page that is not mapped, else on a write, else on an access by a user.
abbrev pub hint : Bool → Bool → Bool → List Call
hint false write user = not_mapped_hint
hint true true user = say "Hint: Write to a read-only page.\n" ∷ []
hint true false true = say "Hint: User-mode access to kernel-only memory.\n" ∷ []
hint true false false = []

flag_is : (w k : ℕ) (b : Bool) → bit_at w k ≡ bit b → flag w (2 ^ k) ≡ b
flag_is w k false e =
    let none_set : bit_and w (2 ^ k) ≡ 0 = bit_and-pow w k ∙ ap (λ n. n * 2 ^ k) e ∙ omega arith in
    let zero_is : (bit_and w (2 ^ k) == 0) ≡ true = ground arith in rw zero_is refl
flag_is w k true e =
    let one_set : bit_and w (2 ^ k) ≡ 1 * 2 ^ k = bit_and-pow w k ∙ ap (λ n. n * 2 ^ k) e in
    let not_zero : (bit_and w (2 ^ k) == 0) ≡ false = ground (arith, one-le-pow k 2) in
    rw not_zero refl

bit-lt : (b : Bool) → bit b < 2
bit-lt false = omega arith
bit-lt true = omega arith

hint-page_fault_hint :
    (code : ℕ) (x y z : Bool)
    → flag code 0x1 ≡ x
    → flag code 0x2 ≡ y
    → flag code 0x4 ≡ z
    → page_fault_hint code ≡ hint x y z
unfolding page_fault_hint
hint-page_fault_hint code false y z a b c = rw a refl
hint-page_fault_hint code true true z a b c = rw (a, b) refl
hint-page_fault_hint code true false true a b c = rw (a, b, c) refl
hint-page_fault_hint code true false false a b c = rw (a, b, c) refl

-- `page_fault_handler` with the error code of a fault, whatever its bits from 5 on are: it prints the
-- address and the code in hexadecimal, the words for the fault, and the hint for it.
pub page_fault_handler-words :
    (buf : List ℕ) (address rest : ℕ) (f : Fault)
    → page_fault_handler buf address (error_code f rest)
      ≡ red_screen
        ++ banner "|          *** PAGE FAULT ***              |\n"
        ++ say "Faulting address: 0x" ∷ Call.text (hex_text address buf) ∷ say "\n" ∷ []
        ++ say "Error code:       0x"
          ∷ Call.text (hex_text (error_code f rest) buf)
          ∷ say "  ("
          ∷ []
        ++ words f
        ++ say ")\n\n" ∷ []
        ++ hint f.protection f.write f.user
        ++ halted
unfolding page_fault_handler decode
page_fault_handler-words buf address rest f =
    let code = error_code f rest in
    let p = bit-lt f.protection in
    let w = bit-lt f.write in
    let u = bit-lt f.user in
    let r = bit-lt f.reserved in
    let i = bit-lt f.fetch in
    let fp : flag code 0x1 ≡ f.protection = flag_is code 0 f.protection (omega arith) in
    let fw : flag code 0x2 ≡ f.write = flag_is code 1 f.write (omega arith) in
    let fu : flag code 0x4 ≡ f.user = flag_is code 2 f.user (omega arith) in
    let fr : flag code 0x8 ≡ f.reserved = flag_is code 3 f.reserved (omega arith) in
    let fi : flag code 0x10 ≡ f.fetch = flag_is code 4 f.fetch (omega arith) in
    rw (hint-page_fault_hint code f.protection f.write f.user fp fw fu, fp, fw, fu, fr, fi) refl
