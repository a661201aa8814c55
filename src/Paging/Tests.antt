-- ===== src/Paging/Tests.antt =====
-- A run of kernel/memory/paging.c after the memory manager has been set up for 16 MB.
use frisca_os.Prelude.{◌*◌, refl, false, arith, replicate}
use frisca_os.Pmm.{Pmm, init}
use frisca_os.Pmm.Init.{init-Boots}
use frisca_os.Pmm.Order.{Boots-FilledTo}
use frisca_os.Paging.{Machine, paging_init}
use frisca_os.Paging.Identity.{IdentityMap, paging_init-IdentityMap}

abbrev statics : Pmm
statics = record { bitmap = replicate 128 0; max_blocks = 4096; used_blocks = 4096 }

-- Memory with the address of each word in it.
abbrev off : Machine
off = record { words = λ a. a; cr3 = 0; paging = false }

paging_init-IdentityMap_example : IdentityMap (paging_init (init (16 * 1024 * 1024) statics) off).0
paging_init-IdentityMap_example =
    let boots = init-Boots (16 * 1024 * 1024) statics refl in
    paging_init-IdentityMap 256 (init (16 * 1024 * 1024) statics) off
      (Boots-FilledTo (16 * 1024 * 1024) boots (omega arith)) (omega (arith, boots.managed))
