-- ===== src/Print/Digits.antt =====
-- Decimal text that is made from its last digit on, as kernel/lib/string.c and kernel/fs/vfs.c make it.
use frisca_os.Prelude.{
  ℕ, suc, ◌+◌, ◌-◌, ◌*◌, ◌/◌, ◌%◌, ◌≤◌, ◌<◌, ◌≡◌, ◌≢◌, refl, ap, sym, ◌∙◌, List, [], ◌∷◌, arith,
  length, get_or, dec_lt,
}

-- Reading decimal digits, after others that stand for `n`.
unfoldable pub read_decimal : ℕ → List ℕ → ℕ
read_decimal n [] = n
read_decimal n (c ∷ cs) = read_decimal (n * 10 + (c - b'0')) cs

abbrev pub Digits : List ℕ → Type 0
Digits [] = Unit {0}
Digits (c ∷ cs) = (b'0' ≤ c) × (c ≤ b'9') × Digits cs

-- The digits of `num`, at most `k` of them, before the text that was there.
pub record Spells (num k : ℕ) (before text : List ℕ) : Type 0 where
  pub reads : read_decimal 0 text ≡ read_decimal num before
  pub digits : Digits before → Digits text
  pub leads : 0 < num → get_or text 0 0 ≢ b'0'
  pub stays : num ≡ 0 → text ≡ before
  pub short : length text ≤ length before + k

-- No digit is left.
pub Spells-zero : (num k : ℕ) (before : List ℕ) → num ≡ 0 → Spells num k before before
Spells-zero num k before e = record {
  reads = ap (λ n. read_decimal n before) (sym e);
  digits = λ d. d;
  leads = λ pos. absurd (omega arith);
  stays = λ _. refl;
  short = omega arith;
}

-- The last digit is put before the text, and then the others.
pub Spells-digit :
    (num k : ℕ) (before text : List ℕ)
    → 0 < num
    → Spells (num / 10) k ((b'0' + num % 10) ∷ before) text
    → Spells num (suc k) before text
unfolding read_decimal
Spells-digit num k before text pos w =
    let last : num / 10 * 10 + (b'0' + num % 10 - b'0') ≡ num = omega arith in
    record {
      reads = w.reads ∙ ap (λ n. read_decimal n before) last;
      digits = λ d. w.digits (omega arith, omega arith, d);
      leads = λ _. elim (dec_lt 0 (num / 10)) [
        | yes more ↦ w.leads more
        | no one ↦
            let only : get_or text 0 0 ≡ b'0' + num % 10 =
              ap (λ t. get_or t 0 0) (w.stays (omega arith)) in
            omega (arith, only)
      ];
      stays = λ e. absurd (omega arith);
      short = omega (arith, w.short);
    }

-- The decimal text of a number: it reads back as the number, in digits, at most ten of them, and does
-- not begin with 0 but for the number 0.
pub record Decimal (num : ℕ) (text : List ℕ) : Type 0 where
  pub reads : read_decimal 0 text ≡ num
  pub digits : Digits text
  pub leads : 0 < num → get_or text 0 0 ≢ b'0'
  pub not_empty : 0 < length text
  pub short : length text ≤ 10

-- Text that reads as a positive number is not empty.
reads-length : (num : ℕ) (text : List ℕ) → 0 < num → read_decimal 0 text ≡ num → 0 < length text
unfolding read_decimal
reads-length num [] pos e = absurd (omega arith)
reads-length num (c ∷ cs) pos e = omega arith

-- A positive number that is spelled with nothing behind it.
pub Spells-Decimal : (num : ℕ) (text : List ℕ) → 0 < num → Spells num 10 [] text → Decimal num text
unfolding read_decimal
Spells-Decimal num text pos w = record {
  reads = w.reads;
  digits = w.digits tt;
  leads = w.leads;
  not_empty = reads-length num text pos w.reads;
  short = w.short;
}

pub zero-Decimal : Decimal 0 (b'0' ∷ [])
unfolding read_decimal
zero-Decimal = record {
  reads = refl;
  digits = omega arith;
  leads = λ pos. absurd (omega arith);
  not_empty = omega arith;
  short = omega arith;
}
