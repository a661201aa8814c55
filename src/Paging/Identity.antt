-- ===== src/Paging/Identity.antt =====
-- The translation of addresses that kernel/memory/paging.c sets up.
use frisca_os.Prelude.{
  ℕ, ◌+◌, ◌*◌, ◌/◌, ◌%◌, ◌^◌, ◌≤◌, ◌<◌, ◌≡◌, refl, ap, sym, ◌∙◌, true, false, arith, Option, none,
  some, ◌==◌, if◌then◌else◌,
}
use mathlib.Core.Path.{subst}
use frisca_os.Pmm.{Pmm, alloc_block}
use frisca_os.Pmm.Order.{FilledTo, alloc_block-FilledTo}
use frisca_os.Paging.{Machine, paging_init, blank_directory, map_tables}
use frisca_os.Paging.Tables.{Mapped, map_tables-Mapped, blank_directory_in}

-- The physical address that the processor reaches for an address, if no page fault is raised: ten bits
-- select an entry of the directory, ten an entry of the table that it leads to, and twelve are kept.
unfoldable pub walk : (ℕ → ℕ) → ℕ → ℕ → Option ℕ
walk words table v =
    let pte = words (table + 4 * (v / 4096 % 1024)) in
    if pte % 2 == 0 then none else some (pte / 4096 * 4096 + v % 4096)

unfoldable pub translate : Machine → ℕ → Option ℕ
translate m v =
    let pde = m.words (m.cr3 / 4096 * 4096 + 4 * (v / 4194304)) in
    if pde % 2 == 0 then none else walk m.words (pde / 4096 * 4096) v

walk_mapped :
    (words : ℕ → ℕ) (table v : ℕ)
    → words (table + 4 * (v / 4096 % 1024)) ≡ v / 4096 * 4096 + 3
    → walk words table v ≡ some v
unfolding walk
walk_mapped words table v e =
    let set : ((v / 4096 * 4096 + 3) % 2 == 0) ≡ false = ground arith in
    let there : (v / 4096 * 4096 + 3) / 4096 * 4096 + v % 4096 ≡ v = omega arith in
    rw (e, set) (ap some there)

translate_present :
    (m : Machine) (d q v : ℕ)
    → m.cr3 ≡ d * 4096
    → m.words (d * 4096 + 4 * (v / 4194304)) ≡ q * 4096 + 3
    → translate m v ≡ walk m.words (q * 4096) v
unfolding translate
translate_present m d q v root e =
    let base : m.cr3 / 4096 * 4096 ≡ d * 4096 = omega arith in
    let set : ((q * 4096 + 3) % 2 == 0) ≡ false = ground arith in
    let there : (q * 4096 + 3) / 4096 * 4096 ≡ q * 4096 = omega arith in
    rw (base, e, set) (ap (λ t. walk m.words t v) there)

translate_absent :
    (m : Machine) (d v : ℕ)
    → m.cr3 ≡ d * 4096
    → m.words (d * 4096 + 4 * (v / 4194304)) ≡ 2
    → translate m v ≡ none
unfolding translate
translate_absent m d v root e =
    let base : m.cr3 / 4096 * 4096 ≡ d * 4096 = omega arith in rw (base, e) refl

-- What `paging_init` leaves: paging is on, the addresses below 16 MB stand for themselves, and any
-- other one raises a page fault.
pub record IdentityMap (m : Machine) : Type 0 where
  pub below : (v : ℕ) → v < 2 ^ 24 → translate m v ≡ some v
  pub above : (v : ℕ) → 2 ^ 24 ≤ v → v < 2 ^ 32 → translate m v ≡ none
  pub on : m.paging ≡ true

Mapped-IdentityMap :
    (d : ℕ) (before : ℕ → ℕ) (m : Machine)
    → m.cr3 ≡ d * 4096
    → Mapped 4 0 d (d + 1) (blank_directory 1024 0 (d * 4096) before) m.words
    → m.paging ≡ true
    → IdentityMap m
Mapped-IdentityMap d before m root t on = record {
  below = λ v lt.
      let u = v / 4194304 in
      let j = v / 4096 % 1024 in
      let page : (0 + u) * 1024 + j ≡ v / 4096 = omega arith in
      translate_present m d (d + 1 + u) v root
        (ap m.words (omega arith) ∙ t.entries u (omega arith))
      ∙ walk_mapped m.words ((d + 1 + u) * 4096) v
          (t.pages u j (omega arith) (omega arith) ∙ ap (λ x. x * 4096 + 3) page);
  above = λ v lo hi.
      let u = v / 4194304 in
      translate_absent m d v root (
        t.kept (d * 4096 + 4 * u) (omega arith) (omega arith)
        ∙ blank_directory_in 1024 0 (d * 4096) u before (omega arith) (omega arith));
  on = on;
}

-- `paging_init` where the used blocks are those below some block, and five more are managed: below
-- 16 MB every address is mapped to itself, all others are unmapped, and paging is on.
pub paging_init-IdentityMap :
    (d : ℕ) (p : Pmm) (m : Machine)
    → FilledTo d p
    → d + 5 ≤ p.max_blocks
    → IdentityMap (paging_init p m).0
unfolding paging_init
paging_init-IdentityMap d p m f room =
    let next = alloc_block-FilledTo d f (omega arith) in
    let q = (alloc_block p).1 in
    let dir = (alloc_block p).0 in
    Mapped-IdentityMap d m.words (paging_init p m).0 next.0
      (subst
        (λ a.
          Mapped 4 0 d (d + 1) (blank_directory 1024 0 (d * 4096) m.words)
            (map_tables 4 0 a q (blank_directory 1024 0 a m.words)).0)
        (sym next.0)
        (map_tables-Mapped 4 0 d (d + 1) q (blank_directory 1024 0 (d * 4096) m.words) next.1
          (omega (arith, next.2)) (omega arith) (omega arith)))
      refl
