-- ===== src/Paging/Memory.antt =====
-- What `paging_init` of kernel/memory/paging.c takes from the physical memory.
use frisca_os.Prelude.{ℕ, zero, suc, ◌+◌, ◌*◌, ◌≤◌, ◌≡◌, arith}
use mathlib.Core.Path.{subst}
use frisca_os.Pmm.{Pmm, alloc_block}
use frisca_os.Pmm.Order.{FilledTo, alloc_block-FilledTo}
use frisca_os.Paging.{
  Machine, paging_init, blank_directory, map_tables, store, with_flags, fill_table,
}

map_tables-FilledTo :
    (n t dir c : ℕ) (p : Pmm) (words : ℕ → ℕ)
    → FilledTo c p
    → c + n ≤ p.max_blocks
    → FilledTo (c + n) (map_tables n t dir p words).1
unfolding map_tables
map_tables-FilledTo zero t dir c p words f room =
    let same : c ≡ c + 0 = omega arith in subst (λ k. FilledTo k p) same f
map_tables-FilledTo (suc n) t dir c p words f room =
    let next = alloc_block-FilledTo c f (omega arith) in
    let (table, q) = alloc_block p in
    let after =
      map_tables n (t + 1) dir q
        (store (dir + 4 * t) (with_flags table) (fill_table 1024 0 t table words)) in
    let same : c + 1 + n ≡ c + suc n = omega arith in
    subst (λ k. FilledTo k after.1) same
      (map_tables-FilledTo n (t + 1) dir (c + 1) q _ next.1 (omega (arith, next.2)))

-- `paging_init` takes the five blocks behind those that are used.
pub paging_init-FilledTo :
    (d : ℕ) (p : Pmm) (m : Machine)
    → FilledTo d p
    → d + 5 ≤ p.max_blocks
    → FilledTo (d + 5) (paging_init p m).1
unfolding paging_init
paging_init-FilledTo d p m f room =
    let next = alloc_block-FilledTo d f (omega arith) in
    let (dir, q) = alloc_block p in
    let same : d + 1 + 4 ≡ d + 5 = omega arith in
    subst (λ k. FilledTo k (paging_init p m).1) same
      (map_tables-FilledTo 4 0 dir (d + 1) q (blank_directory 1024 0 dir m.words) next.1
        (omega (arith, next.2)))
