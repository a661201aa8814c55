-- ===== src/Pmm/Free.antt =====
-- `pmm_free_block` of kernel/memory/pmm.c, alone and after `pmm_alloc_block`.
use frisca_os.Prelude.{
  ℕ, ◌+◌, ◌*◌, ◌/◌, ◌<◌, ◌≡◌, ◌≢◌, ◌⊎◌, inl, inr, ◌∙◌, ap, refl, ◌==◌, if◌then◌else◌, arith,
  ℕ_discrete, dec_lt,
}
use frisca_os.Prelude.Count.{count_below_ones}
use frisca_os.Pmm.{Pmm, clear_bit, alloc_block, free_block, get_free_memory, block_size}
use frisca_os.Pmm.State.{used, IsValid, used-le-one, test_bit_lem}
use frisca_os.Pmm.Inv.{
  mark, unmark, unmark-IsValid, used-mark, used-unmark, count-unmark, unmark-mark,
}
use frisca_os.Pmm.Alloc.{get_free_memory_lem, alloc_block_cases, max_blocks-mark}

-- The address lies in a managed block that is marked used.
abbrev pub Freeable : Pmm → ℕ → Type 0
Freeable p addr = (addr / block_size < p.max_blocks) × (used p (addr / block_size) ≡ 1)

-- The result of freeing the block of `addr` and nothing else.
pub record Frees (p : Pmm) (addr : ℕ) (q : Pmm) : Type 0 where
  pub valid : IsValid q
  pub managed : q.max_blocks ≡ p.max_blocks
  pub marks : (j : ℕ) → used q j ≡ (if addr / block_size == j then 0 else used p j)
  pub memory : get_free_memory q ≡ get_free_memory p + block_size

module _ (p : Pmm) (addr : ℕ) where
  pub free_block-unmark : Freeable p addr → free_block addr p ≡ unmark (addr / block_size) p
  unfolding free_block
  free_block-unmark (lt, taken) = ground (arith, test_bit_lem (addr / block_size) p)

  pub free_block-skip : ¬ (Freeable p addr) → free_block addr p ≡ p
  unfolding free_block
  free_block-skip h =
      ground (arith, test_bit_lem (addr / block_size) p, h, used-le-one p (addr / block_size))

  Freeable-cases : Freeable p addr ⊎ (¬ (Freeable p addr))
  Freeable-cases = elim (dec_lt (addr / block_size) p.max_blocks) [
    | yes lt ↦ elim (ℕ_discrete (used p (addr / block_size)) 1) [
      | yes e ↦ inl (lt, e)
      | no ne ↦ inr (λ f. ne f.1)
    ]
    | no ge ↦ inr (λ f. ge f.0)
  ]

pub max_blocks-unmark : (k : ℕ) (p : Pmm) → (unmark k p).max_blocks ≡ p.max_blocks
unfolding clear_bit
max_blocks-unmark k p = refl

module _ {p : Pmm} (v : IsValid p) (addr : ℕ) where
  unmark-Frees : Freeable p addr → Frees p addr (unmark (addr / block_size) p)
  unmark-Frees (lt, taken) =
      let valid = unmark-IsValid v (addr / block_size) lt taken in
      record {
        valid = valid;
        managed = max_blocks-unmark (addr / block_size) p;
        marks = used-unmark v (addr / block_size) lt;
        memory = omega (
          arith,
          get_free_memory_lem v,
          get_free_memory_lem valid,
          max_blocks-unmark (addr / block_size) p,
          count-unmark v (addr / block_size) lt,
          taken,
        );
      }

  -- `pmm_free_block` on valid variables: an address in a managed block marked used frees that block
  -- and no other, and the free memory grows by one block; any other address changes nothing.
  pub free_block_lem :
      (Freeable p addr × Frees p addr (free_block addr p))
      ⊎ ((¬ (Freeable p addr)) × (free_block addr p ≡ p))
  free_block_lem = elim (Freeable-cases p addr) [
    | inl yes_it ↦ inl (yes_it, rw (free_block-unmark p addr yes_it) (unmark-Frees yes_it))
    | inr no_it ↦ inr (no_it, free_block-skip p addr no_it)
  ]

  -- On valid variables a second `pmm_free_block` of one address changes nothing.
  pub free_block-free_block : free_block addr (free_block addr p) ≡ free_block addr p
  free_block-free_block = elim free_block_lem [
    | inl (f, freed) ↦
        free_block-skip (free_block addr p) addr
          λ again. ground (arith, again.1, freed.marks (addr / block_size))
    | inr (no_it, e) ↦ ap (free_block addr) e
  ]

-- On valid variables with a free block left, `pmm_free_block` of the address
-- that `pmm_alloc_block` returns restores every variable.
pub free_block-alloc_block :
    {p : Pmm}
    → IsValid p
    → get_free_memory p ≢ 0
    → free_block (alloc_block p).0 (alloc_block p).1 ≡ p
free_block-alloc_block {p} v left = elim (alloc_block_cases v) [
  | inl (full, e) ↦
      absurd
        (omega (arith, get_free_memory_lem v, left, count_below_ones (used p) p.max_blocks full))
  | inr (k, f, e) ↦
      let here : k * block_size / block_size ≡ k = omega arith in
      let taken = used-mark v k f.managed k in
      rw e (
        free_block-unmark (mark k p) (k * block_size)
          (rw (here, max_blocks-mark v k) f.managed, rw (here, taken) (ground arith))
        ∙ rw here (unmark-mark v k f.managed f.free))
]
