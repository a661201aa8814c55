-- ===== src/Pmm/Init.antt =====
-- `pmm_init` of kernel/memory/pmm.c: everything below 1 MB stays reserved, the rest is free.
use frisca_os.Prelude.{
  ℕ, zero, suc, ◌+◌, ◌-◌, ◌*◌, ◌/◌, ◌%◌, ◌^◌, min, ◌≤◌, ◌<◌, ◌≡◌, ◌∙◌, sym, refl, get_or_beyond,
  arith, ℕ_discrete, dec_lt, length, fill, length-fill, get_or-fill_in,
}
use frisca_os.Prelude.Bits.{bit_at-zero, bit_at-complement}
use frisca_os.Prelude.Count.{count_below_ones}
use frisca_os.Pmm.{Pmm, init, free_from, capacity, get_free_memory, bitmap_size}
use frisca_os.Pmm.State.{used, count_used, IsValid}
use frisca_os.Pmm.Inv.{unmark, unmark-IsValid, used-unmark, count-unmark}
use frisca_os.Pmm.Alloc.{get_free_memory_lem}
use frisca_os.Pmm.Free.{max_blocks-unmark}

-- The result of freeing the blocks from `i` to the end, of which all are used before.
record Freed (i : ℕ) (p q : Pmm) : Type 0 where
  valid : IsValid q
  managed : q.max_blocks ≡ p.max_blocks
  kept : (j : ℕ) → j < i → used q j ≡ used p j
  cleared : (j : ℕ) → i ≤ j → j < p.max_blocks → used q j ≡ 0
  count : count_used q + (p.max_blocks - i) ≡ count_used p

free_from-Freed :
    (n i : ℕ) {p : Pmm}
    → IsValid p
    → n ≡ p.max_blocks - i
    → ((j : ℕ) → i ≤ j → j < p.max_blocks → used p j ≡ 1)
    → Freed i p (free_from n i p)
unfolding free_from
free_from-Freed zero i v e full = record {
  valid = v;
  managed = refl;
  kept = λ j h. refl;
  cleared = λ j h k. absurd (omega arith);
  count = omega arith;
}
free_from-Freed (suc n) i {p} v e full =
    let lt : i < p.max_blocks = omega arith in
    let same = max_blocks-unmark i p in
    let rest =
      free_from-Freed n (i + 1) {p = unmark i p} (unmark-IsValid v i lt (full i (omega arith) lt))
        (omega (arith, same)) (λ j h k. used-unmark v i lt j ∙ ground (arith, full j, same)) in
    record {
      valid = rest.valid;
      managed = rest.managed ∙ same;
      kept = λ j h. rest.kept j (omega arith) ∙ used-unmark v i lt j ∙ ground arith;
      cleared = λ j h k. elim (ℕ_discrete i j) [
        | yes here ↦ rest.kept j (omega arith) ∙ used-unmark v i lt j ∙ ground arith
        | no ne ↦ rest.cleared j (omega arith) (omega (arith, same))
      ];
      count = omega (arith, rest.count, same, count-unmark v i lt, full i (omega arith) lt);
    }

-- Every block is marked used before the loop.
filled : ℕ → Pmm → Pmm
filled n p = record {
  bitmap = fill bitmap_size 0 (2 ^ 32 - 1) p.bitmap;
  max_blocks = n;
  used_blocks = n;
}

used-filled : (n j : ℕ) (p : Pmm) → length p.bitmap ≡ 128 → j < 4096 → used (filled n p) j ≡ 1
unfolding filled
used-filled n j p e h =
    rw
      (get_or-fill_in bitmap_size 0 (j / 32) (2 ^ 32 - 1) 0 p.bitmap (omega arith) (omega arith)
        (omega arith))
      (bit_at-complement 32 0 (j % 32) (omega arith) (omega arith) ∙ rw bit_at-zero)

filled-IsValid : (n : ℕ) (p : Pmm) → length p.bitmap ≡ 128 → n ≤ 4096 → IsValid (filled n p)
unfolding filled
filled-IsValid n p e h = record {
  size = length-fill bitmap_size 0 _ p.bitmap ∙ e;
  words = λ k. elim (dec_lt k 128) [
    | yes lt ↦
        rw (get_or-fill_in bitmap_size 0 k (2 ^ 32 - 1) 0 p.bitmap (omega arith) lt (omega arith))
          (omega arith)
    | no ge ↦
        rw
          (get_or_beyond (fill bitmap_size 0 (2 ^ 32 - 1) p.bitmap) k 0
            (omega (arith, length-fill bitmap_size 0 (2 ^ 32 - 1) p.bitmap)))
          (omega arith)
  ];
  clamped = h;
  counted = sym (count_below_ones (used (filled n p)) n λ j lt. used-filled n j p e (omega arith));
}

-- What `pmm_init` leaves: as many blocks as fit into the memory, 4096 at most, the first 256 used.
pub record Boots (mem_size : ℕ) (q : Pmm) : Type 0 where
  pub valid : IsValid q
  pub managed : q.max_blocks ≡ min 4096 (mem_size / 4096)
  pub reserved : (j : ℕ) → j < 256 → j < q.max_blocks → used q j ≡ 1
  pub free : (j : ℕ) → 256 ≤ j → j < q.max_blocks → used q j ≡ 0
  pub memory : get_free_memory q ≡ (q.max_blocks - 256) * 4096

-- pmm_init of any memory size over the bitmap of 128 words: the variables are valid; the managed
-- blocks are as many as 4096 bytes go into the memory, 4096 at most; of these exactly the first
-- 256, those below 1 MB, are used; and the free memory is that of the others.
pub init-Boots : (mem_size : ℕ) (p : Pmm) → length p.bitmap ≡ 128 → Boots mem_size (init mem_size p)
unfolding init filled
init-Boots mem_size p e =
    let n = capacity mem_size in
    let small : n ≤ 4096 = ground arith in
    let all = λ (j : ℕ) (lt : j < n). used-filled n j p e (omega arith) in
    let done =
      free_from-Freed (n - 256) 256 {p = filled n p} (filled-IsValid n p e small) refl
        (λ j h k. all j k) in
    record {
      valid = done.valid;
      managed = done.managed ∙ ground arith;
      reserved = λ j h k. done.kept j h ∙ all j (omega (arith, done.managed));
      free = λ j h k. done.cleared j h (omega (arith, done.managed));
      memory = omega (
        arith,
        get_free_memory_lem done.valid,
        done.managed,
        done.count,
        count_below_ones (used (filled n p)) n all,
      );
    }
