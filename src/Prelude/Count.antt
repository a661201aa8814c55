-- ===== src/Prelude/Count.antt =====
-- Sums of a function below a bound, and what changing one value does to them.
use Prim.Native.Nat.{ℕ, zero, suc, ◌+◌, ◌≤◌, ◌<◌}
use mathlib.Core.Path.{◌≡◌, refl}
use mathlib.Core.Logic.{◌≢◌}
use native.Mathlib.Decide.{ℕ_discrete}
use native.Mathlib.Omega.{arith}

abbrev pub count_below : (ℕ → ℕ) → ℕ → ℕ
count_below f zero = 0
count_below f (suc n) = f n + count_below f n

module _ (f : ℕ → ℕ) where
  pub count_below-congr :
      (g : ℕ → ℕ) (n : ℕ) → ((j : ℕ) → j < n → g j ≡ f j) → count_below g n ≡ count_below f n
  count_below-congr g zero h = refl
  count_below-congr g (suc n) h =
      omega (arith, h n (omega arith), count_below-congr g n (λ j lt. h j (omega arith)))

  -- One value below the bound changes.
  pub count_below-update :
      (g : ℕ → ℕ) (i n : ℕ)
      → i < n
      → ((j : ℕ) → i ≢ j → g j ≡ f j)
      → count_below g n + f i ≡ count_below f n + g i
  count_below-update g i zero lt h = absurd (omega arith)
  count_below-update g i (suc n) lt h = elim (ℕ_discrete i n) [
    | yes e ↦ rw e (omega (arith, count_below-congr g n (λ j k. h j (omega arith))))
    | no ne ↦ omega (arith, h n ne, count_below-update g i n (omega arith) h)
  ]

  pub count_below-le : (n : ℕ) → ((j : ℕ) → f j ≤ 1) → count_below f n ≤ n
  count_below-le zero h = omega arith
  count_below-le (suc n) h = omega (arith, h n, count_below-le n h)

  -- A count below the bound leaves a zero.
  pub count_below_full :
      (n : ℕ) → ((j : ℕ) → f j ≤ 1) → n ≤ count_below f n → (j : ℕ) → j < n → f j ≡ 1
  count_below_full zero h e j lt = absurd (omega arith)
  count_below_full (suc n) h e j lt = elim (ℕ_discrete j n) [
    | yes p ↦ rw p (omega (arith, h n, count_below-le n h))
    | no p ↦ count_below_full n h (omega (arith, h n)) j (omega arith)
  ]

  pub count_below_ones : (n : ℕ) → ((j : ℕ) → j < n → f j ≡ 1) → count_below f n ≡ n
  count_below_ones zero h = refl
  count_below_ones (suc n) h =
      omega (arith, h n (omega arith), count_below_ones n (λ j lt. h j (omega arith)))
