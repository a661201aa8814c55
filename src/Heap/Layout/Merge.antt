-- ===== src/Heap/Layout/Merge.antt =====
-- What freeing and merging do to the blocks of a heap, and to the payloads in use.
use frisca_os.Prelude.{
  ℕ, ◌+◌, ◌≡◌, true, false, ◌&&◌, inl, inr, refl, List, [], ◌∷◌, arith, Bool-cases, ◌∙◌,
}
use frisca_os.Heap.{header}
use frisca_os.Heap.Layout.{Block, block, span, Words, Live, Coalesced, absorb, merge}
use frisca_os.Heap.Layout.FirstFit.{Coalesced-tail}

abbrev pub joined : Block → Block → Block
joined b c = block (b.size + (header + c.size)) b.free

-- The sequence `cs` from `p` on has the bytes and the payloads in use of `bs`.
pub record SameUse (p : ℕ) (bs cs : List Block) : Type 0 where
  pub same_span : span cs ≡ span bs
  pub words : Words bs → Words cs
  pub kept : (x n : ℕ) → Live p bs x n → Live p cs x n
  pub only : (x n : ℕ) → Live p cs x n → Live p bs x n

-- Joining two free neighbours loses no payload in use.
joined-SameUse :
    (p : ℕ) (b c : Block) (cs : List Block)
    → (b.free && c.free) ≡ true
    → SameUse p (b ∷ c ∷ cs) (joined b c ∷ cs)
joined-SameUse p b c cs both =
    let bf : b.free ≡ true = ground arith in
    let cf : c.free ≡ true = ground arith in
    let end : p + header + (b.size + (header + c.size)) ≡ p + header + b.size + header + c.size =
      omega arith in
    record {
      same_span = omega arith;
      words = λ w. (omega (arith, w.0, w.1), w.1.1);
      kept = λ x n l. elim l [
        | inl here ↦ absurd (cc (here.1))
        | inr (inl next) ↦ absurd (cc (next.1))
        | inr (inr there) ↦ inr (rw end there)
      ];
      only = λ x n l. elim l [
        | inl here ↦ absurd (cc (here.1))
        | inr there ↦ inr (inr (rw end at there))
      ];
    }

SameUse-trans :
    {p : ℕ} {bs cs ds : List Block} → SameUse p bs cs → SameUse p cs ds → SameUse p bs ds
SameUse-trans s t = record {
  same_span = t.same_span ∙ s.same_span;
  words = λ w. t.words (s.words w);
  kept = λ x n l. t.kept x n (s.kept x n l);
  only = λ x n l. s.only x n (t.only x n l);
}

SameUse-cons :
    {p : ℕ} {bs cs : List Block} (b : Block)
    → SameUse (p + header + b.size) bs cs
    → SameUse p (b ∷ bs) (b ∷ cs)
SameUse-cons b s = record {
  same_span = omega (arith, s.same_span);
  words = λ w. (w.0, s.words w.1);
  kept = λ x n l. elim l [ inl here ↦ inl here | inr there ↦ inr (s.kept x n there) ];
  only = λ x n l. elim l [ inl here ↦ inl here | inr there ↦ inr (s.only x n there) ];
}

SameUse-refl : (p : ℕ) (bs : List Block) → SameUse p bs bs
SameUse-refl p bs = record {
  same_span = refl;
  words = λ w. w;
  kept = λ x n l. l;
  only = λ x n l. l;
}

absorb-SameUse : (p : ℕ) (b : Block) (bs : List Block) → SameUse p (b ∷ bs) (absorb b bs)
unfolding absorb
absorb-SameUse p b [] = SameUse-refl p (b ∷ [])
absorb-SameUse p b (c ∷ cs) = elim (Bool-cases (b.free && c.free)) [
  | inl both ↦
      rw both (SameUse-trans (joined-SameUse p b c cs both) (absorb-SameUse p (joined b c) cs))
  | inr not_both ↦ rw not_both (SameUse-cons b (absorb-SameUse (p + header + b.size) c cs))
]

absorb-Coalesced_after :
    (q b : Block) (bs : List Block) → (q.free && b.free) ≡ false → Coalesced (q ∷ absorb b bs)
unfolding absorb
absorb-Coalesced_after q b [] h = (h, tt)
absorb-Coalesced_after q b (c ∷ cs) h = elim (Bool-cases (b.free && c.free)) [
  | inl both ↦ rw both (absorb-Coalesced_after q (joined b c) cs h)
  | inr not_both ↦ rw not_both (h, absorb-Coalesced_after b c cs not_both)
]

-- Merging leaves no two free neighbours.
pub merge-Coalesced : (bs : List Block) → Coalesced (merge bs)
unfolding merge
merge-Coalesced [] = tt
merge-Coalesced (b ∷ bs) =
    Coalesced-tail (block 0 false) (absorb b bs) (absorb-Coalesced_after (block 0 false) b bs refl)

pub merge-SameUse : (p : ℕ) (bs : List Block) → SameUse p bs (merge bs)
unfolding merge
merge-SameUse p [] = SameUse-refl p []
merge-SameUse p (b ∷ bs) = absorb-SameUse p b bs
