-- ===== src/Prelude/Word.antt =====
-- Words of 8, 16 and 32 bits as numbers: each operation wraps as the hardware's does.
use Prim.Native.Nat.{ℕ, ◌+◌, ◌-◌, ◌*◌, ◌%◌, ◌^◌, ◌≤◌, ◌<◌}
use mathlib.Core.Path.{◌≡◌}
use native.Mathlib.Omega.{arith}

abbrev pub u8 : ℕ → ℕ
u8 x = x % 2 ^ 8

abbrev pub u16 : ℕ → ℕ
u16 x = x % 2 ^ 16

abbrev pub u32 : ℕ → ℕ
u32 x = x % 2 ^ 32

abbrev pub add32 : ℕ → ℕ → ℕ
add32 a b = u32 (a + b)

-- `-` on ℕ stops at 0, so the modulus is added first.
abbrev pub sub32 : ℕ → ℕ → ℕ
sub32 a b = u32 (a + 2 ^ 32 - b)

abbrev pub mul32 : ℕ → ℕ → ℕ
mul32 a b = u32 (a * b)

-- `~a` on 32 bits.
abbrev pub not32 : ℕ → ℕ
not32 a = 2 ^ 32 - 1 - a

-- A subtraction that does not go below zero does not wrap.
pub sub32-eq : (a b : ℕ) → b ≤ a → a < 2 ^ 32 → sub32 a b ≡ a - b
sub32-eq a b h k = omega arith
