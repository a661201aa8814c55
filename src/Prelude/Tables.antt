-- ===== src/Prelude/Tables.antt =====
-- Checks of every value below a bound.
use Prim.Native.Nat.{ℕ, zero, suc, ◌<◌}
use mathlib.Core.Path.{◌≡◌}
use mathlib.Core.Bool.{Bool, true, false, ◌&&◌}
use native.Mathlib.Decide.{ℕ_discrete}
use native.Mathlib.Omega.{arith}

unfoldable pub every : (ℕ → Bool) → ℕ → Bool
every test zero = true
every test (suc top) = every test top && test top

pub every_sound :
    {bound : ℕ} (test : ℕ → Bool) → every test bound ≡ true → (v : ℕ) → v < bound → test v ≡ true
unfolding every
every_sound {bound = zero} test table v below = absurd (omega arith)
every_sound {bound = suc top} test table v below = elim (ℕ_discrete v top) [
  | yes last ↦ rw last (ground arith)
  | no other ↦ every_sound {bound = top} test (ground arith) v (omega arith)
]

-- The first value from the top down that passes.
unfoldable pub last_below : ℕ → (ℕ → Bool) → ℕ
last_below zero p = 0
last_below (suc n) p = let rest = last_below n p in elim (p n) [ true ↦ n | false ↦ rest ]
