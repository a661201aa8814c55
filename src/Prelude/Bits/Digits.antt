-- ===== src/Prelude/Bits/Digits.antt =====
-- The native `bit_or` and `bit_and` by their lowest digit.
use Prim.Native.Nat.{
  ℕ, zero, suc, ◌+◌, ◌*◌, ◌/◌, ◌%◌, ◌≤◌, min, max, bit_and, bit_or, digits, bitwise,
  bit_and-bitwise, bit_or-bitwise,
}
use mathlib.Core.Path.{◌≡◌, refl}
use native.Mathlib.Omega.{arith}

module _ (end : ℕ → ℕ) (op : ℕ → ℕ → ℕ) where
  -- More fuel than digits changes nothing.
  digits-enough : (m n a b : ℕ) → a ≤ m → a ≤ n → digits end op m a b ≡ digits end op n a b
  digits-enough zero zero a b p q = refl
  digits-enough zero (suc n) zero b p q = refl
  digits-enough zero (suc n) (suc a) b p q = absurd (omega arith)
  digits-enough (suc m) zero zero b p q = refl
  digits-enough (suc m) zero (suc a) b p q = absurd (omega arith)
  digits-enough (suc m) (suc n) zero b p q = refl
  digits-enough (suc m) (suc n) (suc a) b p q =
      rw (digits-enough m n (suc a / 2) (b / 2) (omega arith) (omega arith))

  bitwise-digit :
      (a b : ℕ)
      → bitwise end op (suc a) b ≡ bitwise end op (suc a / 2) (b / 2) * 2 + op (suc a % 2) (b % 2)
  bitwise-digit a b =
      omega (arith, digits-enough a (suc a / 2) (suc a / 2) (b / 2) (omega arith) (omega arith))

pub bit_or_digit : (a b : ℕ) → bit_or a b ≡ bit_or (a / 2) (b / 2) * 2 + max (a % 2) (b % 2)
bit_or_digit zero b = simp bit_or-bitwise (omega arith)
bit_or_digit (suc a) b = simp bit_or-bitwise (bitwise-digit (λ d. d) max a b)

pub bit_and_digit : (a b : ℕ) → bit_and a b ≡ bit_and (a / 2) (b / 2) * 2 + min (a % 2) (b % 2)
bit_and_digit zero b = simp bit_and-bitwise (omega arith)
bit_and_digit (suc a) b = simp bit_and-bitwise (bitwise-digit (λ d. zero) min a b)
