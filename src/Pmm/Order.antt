-- ===== src/Pmm/Order.antt =====
-- Allocations in a row from kernel/memory/pmm.c: block after block, while none is freed.
use frisca_os.Prelude.{ℕ, ◌+◌, ◌*◌, ◌≤◌, ◌<◌, ◌≡◌, inl, inr, ◌∙◌, arith, dec_lt}
use frisca_os.Pmm.{Pmm, alloc_block, block_size}
use frisca_os.Pmm.State.{used, IsValid}
use frisca_os.Pmm.Alloc.{Takes, FirstFree, alloc_block_lem}
use frisca_os.Pmm.Init.{Boots}

-- The used blocks are those below `k`.
pub record FilledTo (k : ℕ) (p : Pmm) : Type 0 where
  pub valid : IsValid p
  pub low : (j : ℕ) → j < k → used p j ≡ 1
  pub high : (j : ℕ) → k ≤ j → j < p.max_blocks → used p j ≡ 0

pub Boots-FilledTo :
    (mem_size : ℕ) {p : Pmm} → Boots mem_size p → 1024 * 1024 ≤ mem_size → FilledTo 256 p
Boots-FilledTo mem_size b h = record {
  valid = b.valid;
  low = λ j lt. b.reserved j lt (omega (arith, b.managed));
  high = λ j le lt. b.free j le lt;
}

module _ (k : ℕ) {p : Pmm} (f : FilledTo k p) (lt : k < p.max_blocks) where
  next_is : (i : ℕ) → FirstFree p i → i ≡ k
  next_is i first = elim (dec_lt i k) [
    | yes below ↦ absurd (omega (arith, f.low i below, first.free))
    | no ge ↦ elim (dec_lt k i) [
      | yes above ↦ absurd (omega (arith, f.high k (omega arith) lt, first.lowest k above))
      | no le ↦ omega arith
    ]
  ]

  Takes-FilledTo : (out : ℕ × Pmm) → Takes p k out → FilledTo (k + 1) out.1
  Takes-FilledTo out t = record {
    valid = t.valid;
    low = λ j h. t.marks j ∙ ground (arith, f.low j);
    high = λ j le h. t.marks j ∙ ground (arith, f.high j (omega arith) (omega (arith, t.managed)));
  }

  -- The next allocation takes the block `k`.
  pub alloc_block-FilledTo :
      ((alloc_block p).0 ≡ k * block_size)
      × FilledTo (k + 1) (alloc_block p).1
      × ((alloc_block p).1.max_blocks ≡ p.max_blocks)
  alloc_block-FilledTo = elim (alloc_block_lem f.valid) [
    | inl (full, e) ↦ absurd (omega (arith, f.high k (omega arith) lt, full k lt))
    | inr (i, t) ↦
        let same : Takes p k (alloc_block p) = rw (next_is i t.first) at t in
        (same.address, Takes-FilledTo (alloc_block p) same, same.managed)
  ]
