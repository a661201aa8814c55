-- ===== src/Pmm/Inv.antt =====
-- Marking a block used or free keeps the invariant of kernel/memory/pmm.c.
use frisca_os.Prelude.{
  ℕ, ◌+◌, ◌/◌, ◌%◌, ◌^◌, ◌≤◌, ◌<◌, ◌≡◌, ap, ◌∙◌, inl, inr, bit_and, bit_or, List, length, get_or,
  set, length-set, get_or-set_cases, set-get_or, set-set, get_or-set_self, ◌==◌, if◌then◌else◌,
  arith,
}
use frisca_os.Prelude.Bits.{bit_or-lt, bit_and-le, eq_of_bits}
use frisca_os.Prelude.Count.{count_below-update, count_below-le}
use frisca_os.Prelude.Word.{add32, sub32, not32}
use frisca_os.Pmm.{Pmm, word, mask, set_bit, clear_bit}
use frisca_os.Pmm.State.{
  used, count_used, IsValid, used-le-one, two-pow-lt, bit_at-set, bit_at-clear, used-set_bit,
  used-clear_bit,
}

-- What `pmm_alloc_block` does to the block it picks, and `pmm_free_block` to the one it frees.
abbrev pub mark : ℕ → Pmm → Pmm
mark i p = record (set_bit i p) { used_blocks = add32 (set_bit i p).used_blocks 1 }

abbrev pub unmark : ℕ → Pmm → Pmm
unmark i p = record (clear_bit i p) { used_blocks = sub32 (clear_bit i p).used_blocks 1 }

words-set :
    (xs : List ℕ) (i v : ℕ)
    → ((k : ℕ) → get_or xs k 0 < 2 ^ 32)
    → v < 2 ^ 32
    → (k : ℕ) → get_or (set xs i v) k 0 < 2 ^ 32
words-set xs i v h lt k = elim (get_or-set_cases xs i k v 0) [
  | inl e ↦ rw e lt
  | inr e ↦ rw e (h k)
]

pub used_blocks-le : {p : Pmm} → IsValid p → p.used_blocks ≤ p.max_blocks
used_blocks-le {p} v =
    omega (arith, v.counted, count_below-le (used p) p.max_blocks (used-le-one p))

module _ {p : Pmm} (v : IsValid p) (i : ℕ) (lt : i < p.max_blocks) where
  pub in_bitmap : i / 32 < length p.bitmap
  in_bitmap = omega (arith, v.size, v.clamped)

  pub used-mark : (j : ℕ) → used (mark i p) j ≡ (if i == j then 1 else used p j)
  used-mark j = used-set_bit i j p in_bitmap

  pub used-unmark : (j : ℕ) → used (unmark i p) j ≡ (if i == j then 0 else used p j)
  used-unmark j = used-clear_bit i j p in_bitmap

  pub count-mark : count_used (mark i p) + used p i ≡ count_used p + 1
  unfolding set_bit
  count-mark =
      count_below-update (used p) (used (mark i p)) i p.max_blocks lt
        (λ j ne. used-mark j ∙ ground arith)
      ∙ ap (λ t. count_used p + t) (used-mark i ∙ ground arith)

  pub count-unmark : count_used (unmark i p) + used p i ≡ count_used p
  unfolding clear_bit
  count-unmark =
      let zero_now : used (unmark i p) i ≡ 0 = used-unmark i ∙ ground arith in
      omega (
        arith,
        zero_now,
        count_below-update (used p) (used (unmark i p)) i p.max_blocks lt
            (λ j ne. used-unmark j ∙ ground arith),
      )

  pub mark-IsValid : used p i ≡ 0 → IsValid (mark i p)
  unfolding set_bit
  mark-IsValid free = record {
    size = length-set p.bitmap (i / 32) _ ∙ v.size;
    words =
        words-set p.bitmap (i / 32) _ v.words
          (bit_or-lt 32 _ _ (v.words (i / 32)) (two-pow-lt (i % 32) (omega arith)));
    clamped = v.clamped;
    counted = omega (arith, count-mark, used_blocks-le v, v.counted, v.clamped);
  }

  pub unmark-IsValid : used p i ≡ 1 → IsValid (unmark i p)
  unfolding clear_bit
  unmark-IsValid taken = record {
    size = length-set p.bitmap (i / 32) _ ∙ v.size;
    words = words-set p.bitmap (i / 32) _ v.words (
        omega (
          arith,
          bit_and-le (word p i) (word p i) (not32 (mask i)) (omega arith),
          v.words (i / 32),
        ));
    clamped = v.clamped;
    counted = omega (arith, count-unmark, used_blocks-le v, v.counted, v.clamped);
  }

  -- Clearing a bit that was just set gives the word back.
  word_back : used p i ≡ 0 → bit_and (bit_or (word p i) (mask i)) (not32 (mask i)) ≡ word p i
  word_back free =
      let small : bit_or (word p i) (mask i) < 2 ^ 32 =
        bit_or-lt 32 _ _ (v.words (i / 32)) (two-pow-lt (i % 32) (omega arith)) in
      eq_of_bits 32 _ _
        (omega (
          arith,
          small,
          bit_and-le (bit_or (word p i) (mask i)) (bit_or (word p i) (mask i)) (not32 (mask i))
              (omega arith),
        ))
        (v.words (i / 32))
        λ j h. ground (
          arith,
          bit_at-clear (bit_or (word p i) (mask i)) (i % 32) j (omega arith) h,
          bit_at-set (word p i) (i % 32) j,
        )

  -- Freeing a block that was just taken restores every variable.
  pub unmark-mark : used p i ≡ 0 → unmark i (mark i p) ≡ p
  unfolding set_bit clear_bit
  unmark-mark free =
      let read = get_or-set_self p.bitmap (i / 32) (bit_or (word p i) (mask i)) 0 in_bitmap in
      let back : set p.bitmap (i / 32) (bit_and (bit_or (word p i) (mask i)) (not32 (mask i)))
          ≡ p.bitmap =
        rw (word_back free) (set-get_or p.bitmap (i / 32) 0) in
      let count : sub32 (add32 p.used_blocks 1) 1 ≡ p.used_blocks =
        omega (arith, used_blocks-le v, v.clamped) in
      rw (read, set-set p.bitmap (i / 32) (bit_or (word p i) (mask i)), back)
        (ap (λ n. record p { used_blocks = n }) count)
