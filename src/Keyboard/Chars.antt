-- ===== src/Keyboard/Chars.antt =====
-- Which characters kernel/drivers/keyboard/keyboard.c passes to the shell.
use frisca_os.Prelude.{
  ℕ, ◌+◌, ◌-◌, ◌≤◌, ◌<◌, ◌≡◌, refl, ◌⊎◌, Bool, true, false, ◌&&◌, ◌||◌, Option, none, some, arith,
  leb, ltb, ◌==◌, if◌then◌else◌, ap, sym,
}
use frisca_os.Prelude.Tables.{every, every_sound, last_below}
use frisca_os.Keyboard.{handle_interrupt}

-- A test of what was passed to the shell, if anything was.
if_given : (ℕ → Bool) → Option ℕ → Bool
if_given p none = true
if_given p (some c) = p c

is_given : ℕ → Option ℕ → Bool
is_given c none = false
is_given c (some d) = d == c

-- Both shift states.
both : (Bool → Bool) → Bool
both p = p false && p true

both_sound : (p : Bool → Bool) (b : Bool) → both p ≡ true → p b ≡ true
unfolding both
both_sound p false h = ground arith
both_sound p true h = ground arith

printable : ℕ → Bool
printable c = leb 32 c && leb c 126

expected : ℕ → Bool
unfolding printable
expected c = printable c || (c == 27 || (c == 8 || (c == 9 || c == 10)))

expected_table : every (λ s. both (λ b. if_given expected (handle_interrupt s b).0)) 256 ≡ true
unfolding every both if_given expected handle_interrupt
expected_table = refl

-- For every scancode byte and either shift state, a character that is passed to the shell is
-- printable ASCII, Escape, Backspace, Tab or Enter, and never NUL.
pub handle_interrupt_chars :
    (s : ℕ) (shift : Bool) {c : ℕ}
    → s < 256
    → (handle_interrupt s shift).0 ≡ some c
    → ((32 ≤ c) × (c ≤ 126)) ⊎ (((c ≡ 27) ⊎ (c ≡ 8)) ⊎ ((c ≡ 9) ⊎ (c ≡ 10)))
unfolding if_given expected
handle_interrupt_chars s shift {c} lt e =
    let row =
      both_sound (λ b. if_given expected (handle_interrupt s b).0) shift
        (every_sound (λ t. both (λ b. if_given expected (handle_interrupt t b).0)) expected_table s
          lt) in
    let ok : expected c ≡ true = rw e at row in ground arith

-- The key that types a character, and whether it does so with Shift.
needs_shift : ℕ → Bool
unfolding is_given
needs_shift c =
    is_given c
      (handle_interrupt (last_below 128 (λ s. is_given c (handle_interrupt s true).0)) true).0

key_of : ℕ → ℕ
unfolding needs_shift
key_of c = last_below 128 (λ s. is_given c (handle_interrupt s (needs_shift c)).0)

same : Bool → Bool → Bool
same true b = b
same false true = false
same false false = true

same_sound : (a b : Bool) → same a b ≡ true → a ≡ b
unfolding same
same_sound true b h = sym h
same_sound false true h = h
same_sound false false h = refl

types : ℕ → Bool
unfolding key_of same
types c =
    is_given c (handle_interrupt (key_of c) (needs_shift c)).0
    && (ltb (key_of c) 128 && same (handle_interrupt (key_of c) (needs_shift c)).1 (needs_shift c))

types_table : every (λ c. ltb c 32 || types c) 127 ≡ true
unfolding every types handle_interrupt last_below
types_table = refl

given_sound : (c : ℕ) (o : Option ℕ) → is_given c o ≡ true → o ≡ some c
unfolding is_given
given_sound c none h = absurd (cc)
given_sound c (some d) h = ground arith

-- Every printable ASCII character can be typed: some press of a key, in some shift state, passes
-- exactly that character to the shell and leaves the shift state as it is.
pub handle_interrupt_types :
    (c : ℕ)
    → 32 ≤ c
    → c ≤ 126
    → (s : ℕ) × (shift : Bool) × (s < 128) × (handle_interrupt s shift ≡ (some c, shift))
unfolding types
handle_interrupt_types c lo hi =
    let row = every_sound (λ d. ltb d 32 || types d) types_table c (omega arith) in
    let ok : types c ≡ true = ground arith in
    let out = handle_interrupt (key_of c) (needs_shift c) in
    let char : out.0 ≡ some c = given_sound c out.0 (ground arith) in
    let flag : out.1 ≡ needs_shift c = same_sound out.1 (needs_shift c) (ground arith) in
    (key_of c, needs_shift c, ground arith, λ i. (char i, flag i))

lower : ℕ → Bool
lower c = leb b'a' c && leb c b'z'

upper_of : ℕ → Option ℕ → Bool
upper_of c none = false
upper_of c (some d) = d + 32 == c

upper_table :
    every
      (λ s.
        if_given
          (λ c. if lower c then upper_of c (handle_interrupt s true).0 else true)
          (handle_interrupt s false).0)
      256
    ≡ true
unfolding every if_given lower upper_of handle_interrupt
upper_table = refl

upper_sound : (c : ℕ) (o : Option ℕ) → 97 ≤ c → upper_of c o ≡ true → o ≡ some (c - 32)
unfolding upper_of
upper_sound c none h e = absurd (cc)
upper_sound c (some d) h e = ap some (ground arith)

-- A key that types a lower case letter types the upper case letter under Shift.
pub handle_interrupt_upper :
    (s c : ℕ)
    → s < 256
    → (handle_interrupt s false).0 ≡ some c
    → b'a' ≤ c
    → c ≤ b'z'
    → (handle_interrupt s true).0 ≡ some (c - 32)
unfolding if_given lower
handle_interrupt_upper s c lt e lo hi =
    let row =
      every_sound
        (λ t.
          if_given (λ d. if lower d then upper_of d (handle_interrupt t true).0 else true)
            (handle_interrupt t false).0)
        upper_table s lt in
    let ok : upper_of c (handle_interrupt s true).0 ≡ true =
      let at_c : (if lower c then upper_of c (handle_interrupt s true).0 else true) ≡ true =
        rw e at row in
      ground arith in
    upper_sound c (handle_interrupt s true).0 lo ok

-- The scancode that brings the shift state about: Shift pressed, or released.
pub shift_key : Bool → ℕ
shift_key true = 0x2a
shift_key false = 0xaa

pub handle_interrupt-shift_key :
    (wanted shift : Bool) → handle_interrupt (shift_key wanted) shift ≡ (none, wanted)
unfolding handle_interrupt shift_key
handle_interrupt-shift_key true shift = refl
handle_interrupt-shift_key false shift = refl
