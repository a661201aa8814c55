-- ===== src/Print/Decimal.antt =====
-- What `print_uint` of kernel/lib/string.c prints is the number in decimal.
use frisca_os.Prelude.{
  ℕ, zero, suc, ◌+◌, ◌/◌, ◌%◌, ◌^◌, ◌≤◌, ◌<◌, ◌≡◌, refl, ◌∙◌, true, false, List, [], ◌∷◌, arith,
  length, length-set, drop-set, set, drop, ltb, ◌==◌, dec_lt,
}
use mathlib.Core.Path.{subst}
use native.Mathlib.Nat.{pow-succ'}
use frisca_os.Prelude.Run.{Run, ok}
use frisca_os.Print.Digits.{
  Spells, Spells-zero, Spells-digit, Spells-Decimal, Decimal, zero-Decimal,
}
use frisca_os.Print.{c_string, digit_loop, digit_rounds, uint_text}

-- What the loop has written for `num`, of at most `k` digits, before the text that was there.
record Written (num k : ℕ) (before : List ℕ) (run : Run (ℕ × List ℕ)) : Type 0 where
  start : ℕ
  buf : List ℕ
  returns : run ≡ ok (start, buf)
  spells : Spells num k before (c_string (drop start buf))

digit_loop_done :
    (fuel num start : ℕ) (buf : List ℕ)
    → num ≡ 0
    → digit_loop (suc fuel) num start buf ≡ ok (start, buf)
unfolding digit_loop
digit_loop_done fuel num zero buf e = let no : ltb 0 num ≡ false = ground arith in rw no refl
digit_loop_done fuel num (suc i) buf e = let no : ltb 0 num ≡ false = ground arith in rw no refl

digit_loop_more :
    (fuel num i : ℕ) (buf : List ℕ)
    → 0 < num
    → digit_loop (suc fuel) num (suc i) buf
      ≡ digit_loop fuel (num / 10) i (set buf i (b'0' + num % 10))
unfolding digit_loop
digit_loop_more fuel num i buf lt = let more : ltb 0 num ≡ true = ground arith in rw more refl

-- The digit that a round writes stands before the text.
digit_before :
    (num i : ℕ) (buf : List ℕ)
    → i < length buf
    → c_string (drop i (set buf i (b'0' + num % 10)))
      ≡ (b'0' + num % 10) ∷ c_string (drop (suc i) buf)
digit_before num i buf lt =
    let nonzero : (b'0' + num % 10 == 0) ≡ false = ground arith in
    rw (drop-set buf i (b'0' + num % 10) lt, nonzero) refl

digit_loop-Written :
    (k fuel num start : ℕ) (buf : List ℕ)
    → num < 10 ^ k
    → k < fuel
    → k ≤ start
    → start ≤ length buf
    → Written num k (c_string (drop start buf)) (digit_loop fuel num start buf)
digit_loop-Written k zero num start buf small enough room fits = absurd (omega arith)
digit_loop-Written zero (suc fuel) num start buf small enough room fits = record {
  start = start;
  buf = buf;
  returns = digit_loop_done fuel num start buf (omega arith);
  spells = Spells-zero num zero (c_string (drop start buf)) (omega arith);
}
digit_loop-Written (suc k) (suc fuel) num zero buf small enough room fits = absurd (omega arith)
digit_loop-Written (suc k) (suc fuel) num (suc i) buf small enough room fits = elim (dec_lt 0 num) [
  | no none_left ↦ record {
    start = suc i;
    buf = buf;
    returns = digit_loop_done fuel num (suc i) buf (omega arith);
    spells = Spells-zero num (suc k) (c_string (drop (suc i) buf)) (omega arith);
  }
  | yes pos ↦
      let w =
        digit_loop-Written k fuel (num / 10) i (set buf i (b'0' + num % 10))
          (omega (arith, pow-succ' 10 k)) (omega arith) (omega arith)
          (rw length-set (omega arith)) in
      record {
        start = w.start;
        buf = w.buf;
        returns = digit_loop_more fuel num i buf pos ∙ w.returns;
        spells =
            Spells-digit num k (c_string (drop (suc i) buf)) (c_string (drop w.start w.buf)) pos (
              subst (λ t. Spells (num / 10) k t (c_string (drop w.start w.buf)))
                (digit_before num i buf (omega arith)) w.spells);
      }
]

last_byte : (buf : List ℕ) → length buf ≡ 12 → c_string (drop 11 (set buf 11 0)) ≡ []
last_byte buf e = rw (drop-set buf 11 0 (omega arith)) refl

-- `print_uint` of a 32-bit word, over an array of 12 bytes whatever they hold, makes no access outside of
-- the array and ends; the text that it writes is the word in decimal.
pub uint_text-Decimal :
    (num : ℕ) (buf : List ℕ)
    → num < 2 ^ 32
    → length buf ≡ 12
    → (text : List ℕ) × (uint_text num buf ≡ ok text) × Decimal num text
unfolding uint_text
uint_text-Decimal zero buf word full = (b'0' ∷ [], refl, zero-Decimal)
uint_text-Decimal (suc n) buf word full =
    let buf' = set buf 11 0 in
    let w =
      digit_loop-Written 10 digit_rounds (suc n) 11 buf' (omega arith) (omega arith) (omega arith)
        (rw length-set (omega arith)) in
    let text = c_string (drop w.start w.buf) in
    let nonzero : (suc n == 0) ≡ false = ground arith in
    (
      text,
      rw (nonzero, w.returns) refl,
      Spells-Decimal (suc n) text (omega arith)
          (subst (λ t. Spells (suc n) 10 t text) (last_byte buf full) w.spells),
    )
