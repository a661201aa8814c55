-- ===== src/Heap/Init.antt =====
-- `heap_init` of kernel/memory/heap.c after `pmm_init`.
use frisca_os.Prelude.{ℕ, zero, suc, ◌+◌, ◌*◌, ◌≤◌, ◌<◌, ◌≡◌, refl, ◌∙◌, true, [], ◌∷◌, arith}
use frisca_os.Pmm.{Pmm, block_size}
use frisca_os.Pmm.Order.{FilledTo, alloc_block-FilledTo}
use frisca_os.Heap.{Heap, heap_init, skip_blocks}
use frisca_os.Heap.Layout.{block, Holds}

skip_blocks-FilledTo :
    (n k : ℕ) {p : Pmm} → FilledTo k p → k + n ≤ p.max_blocks → FilledTo (k + n) (skip_blocks n p)
unfolding skip_blocks
skip_blocks-FilledTo zero k f h = let e : k + 0 ≡ k = omega arith in rw e f
skip_blocks-FilledTo (suc n) k f h =
    let (addr, next, same) = alloc_block-FilledTo k f (omega arith) in
    let e : k + suc n ≡ k + 1 + n = omega arith in
    rw e (skip_blocks-FilledTo n (k + 1) next (omega (arith, same)))

-- `heap_init` where the used blocks are those below `k`, not 0, and four more are managed: the heap
-- is one free block of 16384 bytes less its header, at block `k`, and the physical blocks marked
-- used are those below `k` and the four blocks that the heap covers.
pub heap_init-Holds :
    (k : ℕ) {p : Pmm} (h : Heap)
    → FilledTo k p
    → 0 < k
    → k + 4 ≤ p.max_blocks
    → Holds (heap_init p h).0 (block 16372 true ∷ [])
      × ((heap_init p h).0.heap_start ≡ k * block_size)
      × FilledTo (k + 4) (heap_init p h).1
unfolding heap_init
heap_init-Holds k {p} h f pos room =
    let (addr, next, same) = alloc_block-FilledTo k f (omega arith) in
    let e : k + 4 ≡ k + 1 + 3 = omega arith in
    (
      record {
        chain = (ground arith, tt);
        filled = refl;
        words = (refl, tt);
        start_word = omega (arith, addr);
        above_null = omega (arith, addr);
        below_top = omega (arith, addr, f.valid.clamped);
      },
      addr,
      rw e (skip_blocks-FilledTo 3 (k + 1) next (omega (arith, same))),
    )

skip_blocks-max_blocks :
    (n k : ℕ) {p : Pmm}
    → FilledTo k p
    → k + n ≤ p.max_blocks
    → (skip_blocks n p).max_blocks ≡ p.max_blocks
unfolding skip_blocks
skip_blocks-max_blocks zero k f h = refl
skip_blocks-max_blocks (suc n) k f h =
    let (addr, next, same) = alloc_block-FilledTo k f (omega arith) in
    skip_blocks-max_blocks n (k + 1) next (omega (arith, same)) ∙ same

-- `heap_init` leaves the number of managed blocks.
pub heap_init-max_blocks :
    (k : ℕ) {p : Pmm} (h : Heap)
    → FilledTo k p
    → k + 4 ≤ p.max_blocks
    → (heap_init p h).1.max_blocks ≡ p.max_blocks
unfolding heap_init
heap_init-max_blocks k {p} h f room =
    let (addr, next, same) = alloc_block-FilledTo k f (omega arith) in
    skip_blocks-max_blocks 3 (k + 1) next (omega (arith, same)) ∙ same
