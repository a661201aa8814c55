-- ===== src/Pmm/Alloc.antt =====
-- `pmm_alloc_block` of kernel/memory/pmm.c: first fit over the bitmap.
use frisca_os.Prelude.{
  ℕ, zero, suc, ◌+◌, ◌*◌, ◌<◌, ◌≡◌, ◌⊎◌, inl, inr, true, false, ◌∙◌, ap, refl, ◌==◌, if◌then◌else◌,
  arith, ℕ_discrete,
}
use frisca_os.Prelude.Count.{count_below_full}
use frisca_os.Prelude.Word.{sub32}
use frisca_os.Pmm.{Pmm, set_bit, scan, test_bit, alloc_block, get_free_memory, block_size}
use frisca_os.Pmm.State.{used, count_used, IsValid, used-le-one, test_bit_lem}
use frisca_os.Pmm.Inv.{mark, mark-IsValid, used-mark, used_blocks-le, count-mark}

-- Every managed block is marked used.
abbrev pub IsFull : Pmm → Type 0
IsFull p = (j : ℕ) → j < p.max_blocks → used p j ≡ 1

-- `k` is the free block of lowest number.
pub record FirstFree (p : Pmm) (k : ℕ) : Type 0 where
  pub managed : k < p.max_blocks
  pub free : used p k ≡ 0
  pub lowest : (j : ℕ) → j < k → used p j ≡ 1

-- The result of an allocation that takes the block `k` and nothing else.
pub record Takes (p : Pmm) (k : ℕ) (out : ℕ × Pmm) : Type 0 where
  pub first : FirstFree p k
  pub address : out.0 ≡ k * block_size
  pub valid : IsValid out.1
  pub managed : out.1.max_blocks ≡ p.max_blocks
  pub marks : (j : ℕ) → used out.1 j ≡ (if k == j then 1 else used p j)
  pub memory : get_free_memory out.1 + block_size ≡ get_free_memory p

-- The free memory is that of the blocks not marked used: neither the difference nor the product
-- wraps.
pub get_free_memory_lem :
    {p : Pmm}
    → IsValid p
    → get_free_memory p + count_used p * block_size ≡ p.max_blocks * block_size
unfolding get_free_memory
get_free_memory_lem v = omega (arith, used_blocks-le v, v.clamped, v.counted)

module _ {p : Pmm} (v : IsValid p) where
  -- What the scan finds from block `i` on.
  scan_lem :
      (n i : ℕ)
      → i + n ≡ p.max_blocks
      → ((j : ℕ) → j < i → used p j ≡ 1)
      → (IsFull p × (scan n i p ≡ (0, p)))
        ⊎ ((k : ℕ) × FirstFree p k × (scan n i p ≡ (k * block_size, mark k p)))
  unfolding scan
  scan_lem zero i e below = inl (λ j h. below j (omega arith), refl)
  scan_lem (suc n) i e below = elim (ℕ_discrete (used p i) 0) [
    | yes free ↦
        let open_bit : test_bit i p ≡ false = test_bit_lem i p ∙ rw free (ground arith) in
        inr (
          i,
          record { managed = omega arith; free = free; lowest = below },
          rw (open_bit, scan) (ap (λ (a : ℕ). (a, mark i p)) (omega (arith, v.clamped))),
        )
    | no taken ↦
        let one : used p i ≡ 1 = omega (arith, used-le-one p i) in
        let shut : test_bit i p ≡ true = test_bit_lem i p ∙ rw one (ground arith) in
        rw (shut, scan) (scan_lem n (i + 1) (omega arith) (below_next i below one))
  ]
    where
      below_next :
          (i : ℕ)
          → ((j : ℕ) → j < i → used p j ≡ 1)
          → used p i ≡ 1
          → (j : ℕ) → j < i + 1
          → used p j ≡ 1
      below_next i below one j h = elim (ℕ_discrete j i) [
        | yes e ↦ rw e one
        | no ne ↦ below j (omega arith)
      ]

  pub max_blocks-mark : (k : ℕ) → (mark k p).max_blocks ≡ p.max_blocks
  unfolding set_bit
  max_blocks-mark k = refl

  mark-Takes : (k : ℕ) → FirstFree p k → Takes p k (k * block_size, mark k p)
  mark-Takes k f =
      let valid = mark-IsValid v k f.managed f.free in
      record {
        first = f;
        address = refl;
        valid = valid;
        managed = max_blocks-mark k;
        marks = used-mark v k f.managed;
        memory = omega (
          arith,
          get_free_memory_lem v,
          get_free_memory_lem valid,
          max_blocks-mark k,
          count-mark v k f.managed,
          f.free,
        );
      }

  pub alloc_block_cases :
      (IsFull p × (alloc_block p ≡ (0, p)))
      ⊎ ((k : ℕ) × FirstFree p k × (alloc_block p ≡ (k * block_size, mark k p)))
  unfolding alloc_block
  alloc_block_cases = elim (ℕ_discrete p.used_blocks p.max_blocks) [
    | yes e ↦
        let none_left : (sub32 p.max_blocks p.used_blocks == 0) ≡ true = ground arith in
        rw none_left (
          inl (
            count_below_full (used p) p.max_blocks (used-le-one p) (omega (arith, v.counted)),
            refl,
          ))
    | no ne ↦
        let some_left : (sub32 p.max_blocks p.used_blocks == 0) ≡ false =
          ground (arith, used_blocks-le v, v.clamped) in
        rw some_left (scan_lem p.max_blocks 0 (omega arith) (λ j h. absurd (omega arith)))
  ]

  -- `pmm_alloc_block` on valid variables: when every block is used it returns NULL and changes
  -- nothing; otherwise it returns the address of the free block of lowest number, marks that block
  -- and no other, and the free memory falls by one block. The variables stay valid.
  pub alloc_block_lem :
      (IsFull p × (alloc_block p ≡ (0, p))) ⊎ ((k : ℕ) × Takes p k (alloc_block p))
  alloc_block_lem = elim alloc_block_cases [
    | inl full ↦ inl full
    | inr (k, f, e) ↦ inr (k, rw e (mark-Takes k f))
  ]
