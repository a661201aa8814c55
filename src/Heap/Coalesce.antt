-- ===== src/Heap/Coalesce.antt =====
-- The merging loop of `kfree` of kernel/memory/heap.c against the sequence of blocks.
use frisca_os.Prelude.{
  ℕ, zero, suc, ◌+◌, ◌≤◌, ◌<◌, ◌≡◌, ◌^◌, true, false, ◌&&◌, inl, inr, refl, List, [], ◌∷◌, ◌==◌,
  arith, Bool-cases, length, ◌∙◌, ap,
}
use frisca_os.Prelude.Run.{Run, ok}
use frisca_os.Prelude.Word.{add32}
use frisca_os.Heap.{Node, node, Heap, header, write, coalesce}
use frisca_os.Heap.Layout.{Block, span, link, Chain, absorb}
use frisca_os.Heap.Layout.Merge.{joined}
use frisca_os.Heap.Fit.{Chain-frame, write_self}

-- A run that leaves the chain of `cs` from `p` on, having written no header below `p`.
pub record Merges (p : ℕ) (cs : List Block) (h : Heap) (run : Run Heap) : Type 0 where
  pub heap : Heap
  pub returns : run ≡ ok heap
  pub chain : Chain heap.cell p cs
  pub same_start : heap.heap_start ≡ h.heap_start
  pub below : (a : ℕ) → a < p → heap.cell a ≡ h.cell a

-- The header that two free neighbours at `p` leave.
abbrev merged : ℕ → Block → Block → List Block → Node
merged p b c cs =
    node (add32 b.size (add32 header c.size)) b.free
      (link (p + header + b.size + header + c.size) cs)

module _ (k p : ℕ) (b : Block) (h : Heap) (pos : 0 < p) where
  at_node : (p == 0) ≡ false
  at_node = ground arith

  -- The last block.
  coalesce_end : Chain h.cell p (b ∷ []) → coalesce (suc k) p h ≡ ok h
  unfolding coalesce
  coalesce_end ch = rw (at_node, ch.0) refl

  module _ (c : Block) (cs : List Block) (ch : Chain h.cell p (b ∷ c ∷ cs)) where
    not_last : (p + header + b.size == 0) ≡ false
    not_last = ground arith

    coalesce_merge :
        (b.free && c.free) ≡ true
        → coalesce (suc k) p h ≡ coalesce k p (write h p (merged p b c cs))
    unfolding coalesce
    coalesce_merge both =
        let bf : b.free ≡ true = ground arith in
        let cf : c.free ≡ true = ground arith in
        let sum = add32 b.size (add32 header c.size) in
        let next = link (p + header + b.size + header + c.size) cs in
        rw (at_node, ch.0, not_last, bf, ch.1.0, cf)
          (ap (λ f. coalesce k p (write h p (node sum f next))) bf)

    coalesce_advance :
        (b.free && c.free) ≡ false → coalesce (suc k) p h ≡ coalesce k (p + header + b.size) h
    unfolding coalesce
    coalesce_advance both = elim (Bool-cases b.free) [
      | inl bf ↦
          let cf : c.free ≡ false = ground arith in
          rw (at_node, ch.0, not_last, bf, ch.1.0, cf) refl
      | inr bf ↦ rw (at_node, ch.0, not_last, bf) refl
    ]

module _ (p : ℕ) (b c : Block) (cs : List Block) (h : Heap) where
  -- The chain after one merge.
  merged-Chain :
      Chain h.cell p (b ∷ c ∷ cs)
      → span (b ∷ c ∷ cs) ≤ 16384
      → p + span (b ∷ c ∷ cs) < 2 ^ 32
      → Chain (write h p (merged p b c cs)).cell p (joined b c ∷ cs)
  merged-Chain ch small top =
      let sum : add32 b.size (add32 header c.size) ≡ b.size + (header + c.size) = omega arith in
      let end : p + header + (b.size + (header + c.size)) ≡ p + header + b.size + header + c.size =
        omega arith in
      (
        write_self h p _ ∙ rw (sum, end) refl,
        rw end (
            Chain-frame h.cell (write h p (merged p b c cs)).cell
              (p + header + b.size + header + c.size) cs (λ a le. ground arith) ch.1.1),
      )

link-absorb : (end : ℕ) (c : Block) (cs : List Block) → link end (absorb c cs) ≡ end
unfolding absorb
link-absorb end c [] = refl
link-absorb end c (d ∷ ds) = elim (Bool-cases (c.free && d.free)) [
  | inl both ↦ rw both (link-absorb end (joined c d) ds)
  | inr not_both ↦ rw not_both refl
]

-- `coalesce` from a header on merges the blocks from there on, and ends.
pub coalesce-Merges :
    (k p : ℕ) (b : Block) (bs : List Block) (h : Heap)
    → Chain h.cell p (b ∷ bs)
    → 0 < p
    → span (b ∷ bs) ≤ 16384
    → p + span (b ∷ bs) < 2 ^ 32
    → length bs < k
    → Merges p (absorb b bs) h (coalesce k p h)
unfolding absorb
coalesce-Merges zero p b bs h ch pos small top fuel = absurd (omega arith)
coalesce-Merges (suc k) p b [] h ch pos small top fuel = record {
  heap = h;
  returns = coalesce_end k p b h pos ch;
  chain = ch;
  same_start = refl;
  below = λ a lt. refl;
}
coalesce-Merges (suc k) p b (c ∷ cs) h ch pos small top fuel =
    elim (Bool-cases (b.free && c.free)) [
      | inl both ↦
          let g = write h p (merged p b c cs) in
          let m =
            coalesce-Merges k p (joined b c) cs g (merged-Chain p b c cs h ch small top) pos
              (omega arith) (omega arith) (omega arith) in
          rw both (record {
            heap = m.heap;
            returns = coalesce_merge k p b h pos c cs ch both ∙ m.returns;
            chain = m.chain;
            same_start = m.same_start;
            below = λ a lt. m.below a lt ∙ ground arith;
          })
      | inr not_both ↦
          let m =
            coalesce-Merges k (p + header + b.size) c cs h ch.1 (omega arith) (omega arith)
              (omega arith) (omega arith) in
          rw not_both (record {
            heap = m.heap;
            returns = coalesce_advance k p b h pos c cs ch not_both ∙ m.returns;
            chain = (m.below p (omega arith) ∙ rw link-absorb ch.0, m.chain);
            same_start = m.same_start;
            below = λ a lt. m.below a (omega arith);
          })
    ]
