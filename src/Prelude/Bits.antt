-- ===== src/Prelude/Bits.antt =====
-- Bits of a number: what `&`, `|` and `~` do to each of them.
mod Digits
use Digits.{bit_or_digit, bit_and_digit}
use Prim.Native.Nat.{
  ℕ, zero, suc, ◌+◌, ◌-◌, ◌*◌, ◌/◌, ◌%◌, ◌^◌, ◌≤◌, ◌<◌, min, max, bit_and, bit_or, bit_and-bitwise,
}
use mathlib.Core.Path.{◌≡◌, refl, ap, ◌∙◌}
use mathlib.Core.Logic.{◌≢◌}
use native.Mathlib.Nat.{
  two-pow-succ, one-le-pow, mod-lt, div-add-mod, add-mul-mod_self_right, mod-eq_of_lt,
}
use native.Mathlib.Omega.{arith}
use frisca_os.Prelude.Tests.{◌==◌, if◌then◌else◌}

-- The bit `k` of `w`, 0 or 1.
abbrev pub bit_at : ℕ → ℕ → ℕ
bit_at w zero = w % 2
bit_at w (suc k) = bit_at (w / 2) k

zero-bit_and : (b : ℕ) → bit_and 0 b ≡ 0
zero-bit_and b = bit_and-bitwise 0 b

pub bit_at-le-one : (w k : ℕ) → bit_at w k ≤ 1
bit_at-le-one w zero = omega arith
bit_at-le-one w (suc k) = bit_at-le-one (w / 2) k

pub bit_at-zero : (k : ℕ) → bit_at 0 k ≡ 0
bit_at-zero zero = refl
bit_at-zero (suc k) = bit_at-zero k

pub bit_at-bit_or : (a b k : ℕ) → bit_at (bit_or a b) k ≡ max (bit_at a k) (bit_at b k)
bit_at-bit_or a b zero = omega (arith, bit_or_digit a b)
bit_at-bit_or a b (suc k) =
    let e : bit_or a b / 2 ≡ bit_or (a / 2) (b / 2) = omega (arith, bit_or_digit a b) in
    rw e (bit_at-bit_or (a / 2) (b / 2) k)

pub bit_at-bit_and : (a b k : ℕ) → bit_at (bit_and a b) k ≡ min (bit_at a k) (bit_at b k)
bit_at-bit_and a b zero = omega (arith, bit_and_digit a b)
bit_at-bit_and a b (suc k) =
    let e : bit_and a b / 2 ≡ bit_and (a / 2) (b / 2) = omega (arith, bit_and_digit a b) in
    rw e (bit_at-bit_and (a / 2) (b / 2) k)

-- A number with one bit set.
pub bit_at-pow : (k j : ℕ) → bit_at (2 ^ k) j ≡ (if k == j then 1 else 0)
bit_at-pow zero zero = refl
bit_at-pow zero (suc j) = ground (arith, bit_at-zero j)
bit_at-pow (suc k) zero = ground (arith, two-pow-succ k)
bit_at-pow (suc k) (suc j) =
    let e : 2 ^ suc k / 2 ≡ 2 ^ k = omega (arith, two-pow-succ k) in
    rw e (bit_at-pow k j ∙ ground arith)

half-two-pow : (k : ℕ) → 2 ^ suc k / 2 ≡ 2 ^ k
half-two-pow k = omega (arith, two-pow-succ k)

bit_and-zero_within : (a bound : ℕ) → a ≤ bound → bit_and a 0 ≡ 0
bit_and-zero_within zero bound le = refl
bit_and-zero_within (suc a) zero le = absurd (omega arith)
bit_and-zero_within (suc a) (suc bound) le =
    let rest = bit_and-zero_within (suc a / 2) bound (omega arith) in
    omega (arith, rest, bit_and_digit (suc a) 0)

pub bit_and-zero : (a : ℕ) → bit_and a 0 ≡ 0
bit_and-zero a = bit_and-zero_within a a (omega arith)

-- `a | 0` is `a`.
bit_or-zero_within : (a bound : ℕ) → a ≤ bound → bit_or a 0 ≡ a
bit_or-zero_within zero bound le = refl
bit_or-zero_within (suc a) zero le = absurd (omega arith)
bit_or-zero_within (suc a) (suc bound) le =
    let rest = bit_or-zero_within (suc a / 2) bound (omega arith) in
    omega (arith, rest, bit_or_digit (suc a) 0)

pub bit_or-zero : (a : ℕ) → bit_or a 0 ≡ a
bit_or-zero a = bit_or-zero_within a a (omega arith)

-- Testing one bit.
pub bit_and-pow : (w k : ℕ) → bit_and w (2 ^ k) ≡ bit_at w k * 2 ^ k
bit_and-pow w zero = omega (arith, bit_and_digit w 1, bit_and-zero (w / 2))
bit_and-pow w (suc k) = omega (
  arith,
  bit_and_digit w (2 ^ suc k),
  two-pow-succ k,
  ap (λ t. bit_and (w / 2) t) (half-two-pow k),
  bit_and-pow (w / 2) k,
  ap (λ t. bit_at (w / 2) k * t) (two-pow-succ k),
)

-- The bits of a complement within `n` bits.
pub bit_at-complement : (n m j : ℕ) → m < 2 ^ n → j < n → bit_at (2 ^ n - 1 - m) j ≡ 1 - bit_at m j
bit_at-complement zero m j h k = absurd (omega arith)
bit_at-complement (suc n) m zero h k = omega (arith, two-pow-succ n)
bit_at-complement (suc n) m (suc j) h k =
    let e : (2 ^ suc n - 1 - m) / 2 ≡ 2 ^ n - 1 - m / 2 = omega (arith, two-pow-succ n) in
    rw e (bit_at-complement n (m / 2) j (omega (arith, two-pow-succ n)) (omega arith))

pub bit_at-high : (n w j : ℕ) → w < 2 ^ n → n ≤ j → bit_at w j ≡ 0
bit_at-high zero w j h k = let e : w ≡ 0 = omega arith in rw e (bit_at-zero j)
bit_at-high (suc n) w zero h k = absurd (omega arith)
bit_at-high (suc n) w (suc j) h k =
    bit_at-high n (w / 2) j (omega (arith, two-pow-succ n)) (omega arith)

-- A word is its bits.
pub eq_of_bits :
    (n a b : ℕ) → a < 2 ^ n → b < 2 ^ n → ((j : ℕ) → j < n → bit_at a j ≡ bit_at b j) → a ≡ b
eq_of_bits zero a b p q h = omega arith
eq_of_bits (suc n) a b p q h = omega (
  arith,
  h 0 (omega arith),
  eq_of_bits n (a / 2) (b / 2) (omega (arith, two-pow-succ n)) (omega (arith, two-pow-succ n))
      (λ j lt. h (suc j) (omega arith)),
)

pub bit_or-lt : (n a b : ℕ) → a < 2 ^ n → b < 2 ^ n → bit_or a b < 2 ^ n
bit_or-lt zero a b p q =
    let e : a ≡ 0 = omega arith in let f : b ≡ 0 = omega arith in rw (e, f) (omega arith)
bit_or-lt (suc n) a b p q = omega (
  arith,
  bit_or_digit a b,
  two-pow-succ n,
  bit_or-lt n (a / 2) (b / 2) (omega (arith, two-pow-succ n)) (omega (arith, two-pow-succ n)),
)

pub bit_and-le : (n a b : ℕ) → a ≤ n → bit_and a b ≤ a
bit_and-le n zero b p = omega (arith, bit_and_digit 0 b, zero-bit_and b)
bit_and-le zero (suc a) b p = absurd (omega arith)
bit_and-le (suc n) (suc a) b p =
    omega (arith, bit_and_digit (suc a) b, bit_and-le n (suc a / 2) (b / 2) (omega arith))

half-mod : (k a : ℕ) → a % 2 ^ suc k ≡ a / 2 % 2 ^ k * 2 + a % 2
half-mod k a =
    let q = a / 2 / 2 ^ k in
    let r = a / 2 % 2 ^ k in
    let low : r < 2 ^ k = mod-lt (a / 2) {m = 2 ^ k} (one-le-pow k 2 (omega arith)) in
    let split : a ≡ r * 2 + a % 2 + q * 2 ^ suc k =
      omega (arith, div-add-mod (a / 2) (2 ^ k), ap (λ x. q * x) (two-pow-succ k)) in
    ap (λ x. x % 2 ^ suc k) split
    ∙ add-mul-mod_self_right (r * 2 + a % 2) q (2 ^ suc k)
    ∙ mod-eq_of_lt (omega (arith, two-pow-succ k))

-- `|` of disjoint fields is a sum.
pub bit_or_fields : (k q r : ℕ) → r < 2 ^ k → bit_or (q * 2 ^ k) r ≡ q * 2 ^ k + r
bit_or_fields zero q r h = let e : r ≡ 0 = omega arith in rw (e, bit_or-zero) (omega arith)
bit_or_fields (suc k) q r h =
    let t : q * 2 ^ suc k ≡ 2 * (q * 2 ^ k) = omega (arith, ap (λ x. q * x) (two-pow-succ k)) in
    let e : q * 2 ^ suc k / 2 ≡ q * 2 ^ k = omega (arith, t) in
    omega (
      arith,
      bit_or_digit (q * 2 ^ suc k) r,
      t,
      ap (λ x. bit_or x (r / 2)) e,
      bit_or_fields k q (r / 2) (omega (arith, two-pow-succ k)),
    )

-- A mask of `k` ones is the remainder by `2 ^ k`.
pub bit_and_mask : (k a : ℕ) → bit_and a (2 ^ k - 1) ≡ a % 2 ^ k
bit_and_mask zero a = rw bit_and-zero (omega arith)
bit_and_mask (suc k) a =
    let e : (2 ^ suc k - 1) / 2 ≡ 2 ^ k - 1 = omega (arith, two-pow-succ k, one-le-pow k 2) in
    omega (
      arith,
      bit_and_digit a (2 ^ suc k - 1),
      ap (λ x. bit_and (a / 2) x) e,
      two-pow-succ k,
      one-le-pow k 2,
      bit_and_mask k (a / 2),
      half-mod k a,
    )

-- A mask of 32 ones less the lowest two drops those two bits.
pub bit_and_not_three : (a : ℕ) → a < 2 ^ 32 → bit_and a (2 ^ 32 - 4) ≡ a / 4 * 4
bit_and_not_three a h = omega (
  arith,
  bit_and_digit a (2 ^ 32 - 4),
  bit_and_digit (a / 2) (2 ^ 31 - 2),
  bit_and_mask 30 (a / 2 / 2),
)

-- The two lowest flags of an aligned word.
pub bit_or_flags : (q : ℕ) → bit_or (bit_or (q * 2 ^ 12) 1) 2 ≡ q * 2 ^ 12 + 3
bit_or_flags q =
    let one = bit_or_fields 12 q 1 (omega arith) in
    let half : (q * 2 ^ 12 + 1) / 2 ≡ q * 2 ^ 11 = omega arith in
    omega (
      arith,
      ap (λ x. bit_or x 2) one,
      bit_or_digit (q * 2 ^ 12 + 1) 2,
      ap (λ x. bit_or x 1) half,
      bit_or_fields 11 q 1 (omega arith),
    )
