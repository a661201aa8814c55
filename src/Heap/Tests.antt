-- ===== src/Heap/Tests.antt =====
-- Runs of kernel/memory/heap.c, and its theorems at a fresh heap at 1 MB.
use frisca_os.Prelude.{
  ℕ, ◌+◌, ◌*◌, ◌≤◌, ◌≡◌, refl, ◌⊎◌, inl, Bool, true, false, none, some, [], ◌∷◌, arith, ◌==◌,
  if◌then◌else◌, replicate,
}
use frisca_os.Prelude.Run.{Run, ok, ◌>>=◌}
use frisca_os.Pmm.{Pmm, init, block_size}
use frisca_os.Pmm.Init.{init-Boots}
use frisca_os.Pmm.Order.{FilledTo, Boots-FilledTo}
use frisca_os.Heap.{Heap, header, node, heap_init, kmalloc, kfree, take_node, round_up}
use frisca_os.Heap.Layout.{block, Holds, Live, NoFit, merge, release}
use frisca_os.Heap.Allocate.{Served, kmalloc_refines, kmalloc_separates}
use frisca_os.Heap.Free.{Freed, kfree-Freed, kfree-kmalloc}
use frisca_os.Heap.Init.{heap_init-Holds}

abbrev statics : Pmm
statics = record { bitmap = replicate 128 0; max_blocks = 4096; used_blocks = 4096 }

abbrev booted : Pmm
booted = init (16 * 1024 * 1024) statics

-- A heap at 1 MB with one block.
abbrev one_block : ℕ → Bool → Heap
one_block n f = record {
  heap_start = 0x100000;
  cell = λ a. if a == 0x100000 then some (node n f 0) else none;
}

one_block-Holds : (f : Bool) → Holds (one_block 16372 f) (block 16372 f ∷ [])
one_block-Holds f = record {
  chain = (refl, tt);
  filled = refl;
  words = (refl, tt);
  start_word = refl;
  above_null = omega arith;
  below_top = omega arith;
}

abbrev fresh : Heap
fresh = one_block 16372 true

abbrev taken : Heap
taken = one_block 16372 false

-- What is left of the address that a call returns.
abbrev address : Run (ℕ × Heap) → Run ℕ
address r = r >>= λ o. ok o.0

two_payloads : address (kmalloc 5 fresh >>= λ o. kmalloc 100 o.1) ≡ ok (0x100000 + 12 + 8 + 12)
unfolding kmalloc frisca_os.Heap.find_fit take_node
two_payloads = refl

reuse : address (do o ← kmalloc 5 fresh; h ← kfree o.0 o.1; kmalloc 16372 h) ≡ ok (0x100000 + 12)
unfolding kmalloc kfree frisca_os.Heap.find_fit frisca_os.Heap.coalesce take_node
reuse = refl

heap_init-Holds_example :
    Holds (heap_init booted fresh).0 (block 16372 true ∷ [])
    × ((heap_init booted fresh).0.heap_start ≡ 256 * block_size)
    × FilledTo 260 (heap_init booted fresh).1
heap_init-Holds_example =
    let boots = init-Boots (16 * 1024 * 1024) statics refl in
    heap_init-Holds 256 {p = booted} fresh (Boots-FilledTo (16 * 1024 * 1024) boots (omega arith))
      (omega arith) (omega (arith, boots.managed))

kmalloc_refines_example : Served 5 fresh (block 16372 true ∷ [])
kmalloc_refines_example = kmalloc_refines fresh 5 (omega arith) (one_block-Holds true)

kmalloc_separates_example :
    (NoFit 8 (block 16372 true ∷ []) × (kmalloc 5 fresh ≡ ok (0, fresh)))
    ⊎ ((a : ℕ) × (got : ℕ) × (g : Heap) × (kmalloc 5 fresh ≡ ok (a, g))
        × (5 ≤ got)
        × (0x100000 + header ≤ a)
        × (a + got ≤ 0x100000 + 16384)
        × ((x n : ℕ)
            → Live 0x100000 (block 16372 true ∷ []) x n
            → (a + got + header ≤ x) ⊎ (x + n + header ≤ a)))
kmalloc_separates_example =
    kmalloc_separates fresh 5 (omega arith) (one_block-Holds true) (omega arith)

kfree-Freed_example :
    (g : Heap) × Freed taken
      (block 16372 false ∷ [])
      0x10000c
      (merge (release 0x10000c 0x100000 (block 16372 false ∷ [])))
      g
kfree-Freed_example = kfree-Freed (one_block-Holds false) 0x10000c 16372 (inl (refl, refl, refl))

-- The heap after kmalloc(5).
abbrev after_five : Heap
after_five = (take_node 8 0x100000 (node 16372 true 0) fresh).1

kmalloc_five : kmalloc 5 fresh ≡ ok (0x10000c, after_five)
unfolding kmalloc frisca_os.Heap.find_fit take_node
kmalloc_five = refl

kfree-kmalloc_example :
    (g : Heap) × (kfree 0x10000c after_five ≡ ok g) × Holds g (block 16372 true ∷ [])
kfree-kmalloc_example =
    kfree-kmalloc 5 0x10000c after_five (one_block-Holds true) tt (omega arith) kmalloc_five
      (omega arith)
