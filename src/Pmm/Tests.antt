-- ===== src/Pmm/Tests.antt =====
-- Runs of kernel/memory/pmm.c, and its theorems at booted variables.
use frisca_os.Prelude.{ℕ, ◌+◌, ◌*◌, ◌≡◌, refl, ◌⊎◌, arith, replicate, [], ◌∷◌}
use frisca_os.Pmm.{Pmm, init, alloc_block, free_block, get_free_memory, block_size}
use frisca_os.Pmm.State.{used, IsValid}
use frisca_os.Pmm.Alloc.{IsFull, Takes, alloc_block_lem}
use frisca_os.Pmm.Free.{Freeable, Frees, free_block_lem}
use frisca_os.Pmm.Init.{Boots, init-Boots}
use frisca_os.Pmm.Null.{alloc_block-free_block_null}

-- The variables before `pmm_init`.
abbrev statics : Pmm
statics = record { bitmap = replicate 128 0; max_blocks = 4096; used_blocks = 4096 }

-- `pmm_init(16 * 1024 * 1024)`
abbrev booted : Pmm
booted = init (16 * 1024 * 1024) statics

-- Two words of bitmap: block 1 is free and so is block 33.
abbrev small : Pmm
small = record { bitmap = 0xffff_fffd ∷ 0xffff_fffd ∷ []; max_blocks = 64; used_blocks = 62 }

alloc_runs : (alloc_block small).0 ≡ 4096
unfolding alloc_block frisca_os.Pmm.test_bit
alloc_runs = refl

alloc_again : (alloc_block (alloc_block small).1).0 ≡ 33 * 4096
unfolding alloc_block frisca_os.Pmm.test_bit frisca_os.Pmm.set_bit
alloc_again = refl

init-Boots_example : Boots (16 * 1024 * 1024) booted
init-Boots_example = init-Boots (16 * 1024 * 1024) statics refl

booted-IsValid : IsValid booted
booted-IsValid = (init-Boots (16 * 1024 * 1024) statics refl).valid

booted_memory : get_free_memory booted ≡ 15 * 1024 * 1024
booted_memory =
    let boots = init-Boots (16 * 1024 * 1024) statics refl in
    omega (arith, boots.managed, boots.memory)

booted-reserved : used booted 0 ≡ 1
booted-reserved =
    let boots = init-Boots (16 * 1024 * 1024) statics refl in
    boots.reserved 0 (omega arith) (omega (arith, boots.managed))

booted_blocks : booted.max_blocks ≡ 4096
booted_blocks = (init-Boots (16 * 1024 * 1024) statics refl).managed

alloc_block_lem_example :
    (IsFull booted × (alloc_block booted ≡ (0, booted)))
    ⊎ ((k : ℕ) × Takes booted k (alloc_block booted))
alloc_block_lem_example = alloc_block_lem booted-IsValid

free_block_lem_example :
    (Freeable booted 8192 × Frees booted 8192 (free_block 8192 booted))
    ⊎ ((¬ (Freeable booted 8192)) × (free_block 8192 booted ≡ booted))
free_block_lem_example = free_block_lem booted-IsValid 8192

alloc_block-free_block_null_example :
    (used (free_block 0 booted) 0 ≡ 0)
    × (get_free_memory (free_block 0 booted) ≡ get_free_memory booted + block_size)
    × ((alloc_block (free_block 0 booted)).0 ≡ 0)
alloc_block-free_block_null_example =
    alloc_block-free_block_null booted-IsValid (omega (arith, booted_blocks)) booted-reserved
