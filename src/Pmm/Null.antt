-- ===== src/Pmm/Null.antt =====
-- The address 0 in kernel/memory/pmm.c: NULL, and the address of block 0.
use frisca_os.Prelude.{◌+◌, ◌<◌, ◌≡◌, inl, inr, arith, ℕ_discrete}
use frisca_os.Pmm.{Pmm, alloc_block, free_block, get_free_memory, block_size}
use frisca_os.Pmm.State.{used, IsValid}
use frisca_os.Pmm.Alloc.{alloc_block_lem}
use frisca_os.Pmm.Free.{free_block_lem}

-- On valid variables whose block 0 is managed and reserved, `pmm_free_block(NULL)` is not ignored:
-- it frees block 0, and the next `pmm_alloc_block` then returns NULL although a block was free.
pub alloc_block-free_block_null :
    {p : Pmm}
    → IsValid p
    → 0 < p.max_blocks
    → used p 0 ≡ 1
    → (used (free_block 0 p) 0 ≡ 0)
      × (get_free_memory (free_block 0 p) ≡ get_free_memory p + block_size)
      × ((alloc_block (free_block 0 p)).0 ≡ 0)
alloc_block-free_block_null v lt taken = elim (free_block_lem v 0) [
  | inr (skipped, e) ↦ absurd (skipped (lt, taken))
  | inl (f, freed) ↦
      let open_now = freed.marks 0 in
      (
        open_now,
        freed.memory,
        elim (alloc_block_lem freed.valid) [
          | inl (full, e) ↦ absurd (omega (arith, open_now, full 0 (omega (arith, freed.managed))))
          | inr (k, t) ↦ elim (ℕ_discrete k 0) [
            | yes z ↦ omega (arith, t.address)
            | no ne ↦ absurd (omega (arith, open_now, t.first.lowest 0 (omega arith)))
          ]
        ],
      )
]
