-- ===== src/Heap/Kmalloc.antt =====
-- `kmalloc` of kernel/memory/heap.c implements first fit on the sequence of blocks.
use frisca_os.Prelude.{
  ℕ, zero, suc, ◌+◌, ◌≤◌, ◌<◌, ◌≡◌, ◌^◌, false, ◌&&◌, ◌⊎◌, inl, inr, refl, none, List, [], ◌∷◌, leb,
  ◌==◌, if◌then◌else◌, arith, Bool-cases, length, ◌∙◌, sym,
}
use mathlib.Core.Path.{subst}
use frisca_os.Prelude.Run.{Run, ok}
use frisca_os.Heap.{Heap, header, take_node, find_fit}
use frisca_os.Heap.Layout.{Block, span, link, Chain, first_fit}
use frisca_os.Heap.Fit.{Fits, here_node, take_node-Fits}

-- The search fails where first fit does, and changes nothing then; else it gives out its payload.
abbrev Searched : ℕ → ℕ → List Block → Heap → Run (ℕ × Heap) → Type 0
Searched size p bs h run = ((first_fit size p bs ≡ none) × (run ≡ ok (0, h))) ⊎ Fits size p bs h run

module _ (size : ℕ) (h : Heap) where
  find_fit_end : (k : ℕ) → 0 < k → find_fit k size 0 h ≡ ok (0, h)
  unfolding find_fit
  find_fit_end zero lt = absurd (omega arith)
  find_fit_end (suc k) lt = refl

  -- A block that is passed over stays as it is.
  pass :
      (p : ℕ) (b : Block) (bs : List Block) (run : Run (ℕ × Heap))
      → Chain h.cell p (b ∷ bs)
      → (b.free && leb size b.size) ≡ false
      → Searched size (p + header + b.size) bs h run
      → Searched size p (b ∷ bs) h run
  unfolding first_fit
  pass p b bs run ch miss (inl (no_fit, stays)) = inl (rw (miss, no_fit) refl, stays)
  pass p b bs run ch miss (inr f) = inr (record {
    addr = f.addr;
    blocks = b ∷ f.blocks;
    heap = f.heap;
    fit = rw (miss, f.fit) refl;
    returns = f.returns;
    chain = (f.below p (omega arith) ∙ rw (f.same_link (p + header + b.size)) ch.0, f.chain);
    same_span = omega (arith, f.same_span);
    same_link = λ e. refl;
    same_start = f.same_start;
    below = λ a lt. f.below a (omega arith);
  })

  -- One round of the loop.
  find_fit_round :
      (k p : ℕ) (b : Block) (bs : List Block)
      → Chain h.cell p (b ∷ bs)
      → 0 < p
      → find_fit (suc k) size p h ≡ (
          if b.free && leb size b.size
          then ok (take_node size p (here_node size p b bs h) h)
          else find_fit k size (link (p + header + b.size) bs) h)
  unfolding find_fit
  find_fit_round k p b bs ch pos =
      let at_node : (p == 0) ≡ false = ground arith in rw (at_node, ch.0) refl

  round-Searched :
      (k p : ℕ) (b : Block) (bs : List Block)
      → Chain h.cell p (b ∷ bs)
      → 0 < p
      → span (b ∷ bs) ≤ 16384
      → p + span (b ∷ bs) < 2 ^ 32
      → Searched size (p + header + b.size) bs h (find_fit k size (link (p + header + b.size) bs) h)
      → Searched size p (b ∷ bs) h (find_fit (suc k) size p h)
  round-Searched k p b bs ch pos small top rest = elim (Bool-cases (b.free && leb size b.size)) [
    | inl fits ↦
        rw (find_fit_round k p b bs ch pos, fits)
          (inr (take_node-Fits size p b bs h ch small top (ground arith) (ground arith)))
    | inr miss ↦
        subst (Searched size p (b ∷ bs) h) (sym (find_fit_round k p b bs ch pos ∙ rw miss refl))
          (pass p b bs _ ch miss rest)
  ]

  pub find_fit-Searched :
      (k p : ℕ) (b : Block) (bs : List Block)
      → Chain h.cell p (b ∷ bs)
      → 0 < p
      → span (b ∷ bs) ≤ 16384
      → p + span (b ∷ bs) < 2 ^ 32
      → length bs + 1 < k
      → Searched size p (b ∷ bs) h (find_fit k size p h)
  unfolding first_fit
  find_fit-Searched zero p b bs ch pos small top fuel = absurd (omega arith)
  find_fit-Searched (suc k) p b [] ch pos small top fuel =
      round-Searched k p b [] ch pos small top (inl (refl, find_fit_end k (omega arith)))
  find_fit-Searched (suc k) p b (c ∷ cs) ch pos small top fuel =
      round-Searched k p b (c ∷ cs) ch pos small top (
        find_fit-Searched k (p + header + b.size) c cs ch.1 (omega arith) (omega arith)
          (omega arith) (omega arith))
