-- ===== src/Pmm/State.antt =====
-- What the bitmap of kernel/memory/pmm.c says of each block, and the invariant of its variables.
use frisca_os.Prelude.{
  ℕ, ◌/◌, ◌%◌, ◌^◌, ◌≤◌, ◌<◌, ◌≡◌, ◌∙◌, bit_and, bit_or, length, get_or, get_or-set_self,
  get_or-set_ne, ◌==◌, if◌then◌else◌, arith, ℕ_discrete,
}
use native.Mathlib.Nat.{pow-le-pow_right, one-le-pow}
use frisca_os.Prelude.Bits.{
  bit_at, bit_at-le-one, bit_at-bit_or, bit_at-bit_and, bit_at-pow, bit_and-pow, bit_at-complement,
}
use frisca_os.Prelude.Count.{count_below}
use frisca_os.Prelude.Word.{not32}
use frisca_os.Pmm.{Pmm, word, mask, set_bit, clear_bit, test_bit}

-- 1 for a block marked used, 0 for a free one.
abbrev pub used : Pmm → ℕ → ℕ
used p i = bit_at (word p i) (i % 32)

-- How many of the managed blocks are marked used.
abbrev pub count_used : Pmm → ℕ
count_used p = count_below (used p) p.max_blocks

pub record IsValid (p : Pmm) : Type 0 where
  pub size : length p.bitmap ≡ 128
  pub words : (k : ℕ) → get_or p.bitmap k 0 < 2 ^ 32
  pub clamped : p.max_blocks ≤ 4096
  pub counted : p.used_blocks ≡ count_used p

pub used-le-one : (p : Pmm) (i : ℕ) → used p i ≤ 1
used-le-one p i = bit_at-le-one (word p i) (i % 32)

pub two-pow-lt : (k : ℕ) → k < 32 → 2 ^ k < 2 ^ 32
two-pow-lt k h =
    omega (arith, pow-le-pow_right {n = 2} (omega arith) {i = k} {j = 31} (omega arith))

-- A word with the bit `k` set, and with it cleared.
pub bit_at-set : (w k j : ℕ) → bit_at (bit_or w (2 ^ k)) j ≡ (if k == j then 1 else bit_at w j)
bit_at-set w k j = ground (arith, bit_at-bit_or w (2 ^ k) j, bit_at-pow k j, bit_at-le-one w j)

pub bit_at-clear :
    (w k j : ℕ)
    → k < 32
    → j < 32
    → bit_at (bit_and w (not32 (2 ^ k))) j ≡ (if k == j then 0 else bit_at w j)
bit_at-clear w k j hk hj = ground (
  arith,
  bit_at-bit_and w (not32 (2 ^ k)) j,
  bit_at-complement 32 (2 ^ k) j (two-pow-lt k hk) hj,
  bit_at-pow k j,
  bit_at-le-one w j,
)

pub test_bit_lem : (i : ℕ) (p : Pmm) → test_bit i p ≡ (used p i == 1)
unfolding test_bit
test_bit_lem i p = ground (
  arith,
  bit_and-pow (word p i) (i % 32),
  bit_at-le-one (word p i) (i % 32),
  one-le-pow (i % 32) 2,
)

module _ (i j : ℕ) (p : Pmm) (h : i / 32 < length p.bitmap) where
  pub used-set_bit : used (set_bit i p) j ≡ (if i == j then 1 else used p j)
  unfolding set_bit
  used-set_bit = elim (ℕ_discrete (i / 32) (j / 32)) [
    | yes e ↦
        rw (← e, get_or-set_self p.bitmap (i / 32) (bit_or (word p i) (mask i)) 0 h)
          (bit_at-set (word p i) (i % 32) (j % 32) ∙ ground arith)
    | no ne ↦
        rw (get_or-set_ne p.bitmap (i / 32) (j / 32) (bit_or (word p i) (mask i)) 0 ne)
          (ground arith)
  ]

  pub used-clear_bit : used (clear_bit i p) j ≡ (if i == j then 0 else used p j)
  unfolding clear_bit
  used-clear_bit = elim (ℕ_discrete (i / 32) (j / 32)) [
    | yes e ↦
        rw (← e, get_or-set_self p.bitmap (i / 32) (bit_and (word p i) (not32 (mask i))) 0 h)
          (bit_at-clear (word p i) (i % 32) (j % 32) (omega arith) (omega arith) ∙ ground arith)
    | no ne ↦
        rw (get_or-set_ne p.bitmap (i / 32) (j / 32) (bit_and (word p i) (not32 (mask i))) 0 ne)
          (ground arith)
  ]
