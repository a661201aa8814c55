-- ===== src/Heap/Layout/Restore.antt =====
-- Taking back what first fit gave out, and merging, restores the blocks.
use frisca_os.Prelude.{
  ℕ, ◌+◌, ◌-◌, ◌≤◌, ◌≡◌, true, false, ◌&&◌, inl, inr, refl, none, some, List, [], ◌∷◌, leb, ◌==◌,
  arith, Bool-cases, Option-cases, ◌∙◌, ap, sym,
}
use mathlib.Core.Path.{subst}
use mathlib.Core.List.{tail}
use mathlib.Core.Option.{some-injective}
use frisca_os.Heap.{header}
use frisca_os.Heap.Layout.{Block, block, split, first_fit, Coalesced, absorb, merge, release}
use frisca_os.Heap.Layout.FirstFit.{Live_bounds, Coalesced-cons, first_fit-Gives}

absorb-Coalesced_eq : (b : Block) (bs : List Block) → Coalesced (b ∷ bs) → absorb b bs ≡ b ∷ bs
unfolding absorb
absorb-Coalesced_eq b [] co = refl
absorb-Coalesced_eq b (c ∷ cs) co = rw co.0 (ap (λ t. b ∷ t) (absorb-Coalesced_eq c cs co.1))

module _ (size p : ℕ) (q b : Block) (bs : List Block) (free : b.free ≡ true)
    (le : size ≤ b.size) where
  -- The block given out is joined with its rest again.
  restore_hit :
      Coalesced (q ∷ b ∷ bs) → absorb q (release (p + header) p (split size b bs)) ≡ q ∷ b ∷ bs
  unfolding absorb release split
  restore_hit co =
      let same : (p + header == p + header) ≡ true = ground arith in
      let q_used : (q.free && true) ≡ false = ground arith in
      let whole : block b.size true ≡ b = ap (λ f. block b.size f) (sym free) in
      let rest = absorb-Coalesced_eq b bs co.1 in
      elim (Bool-cases (leb (size + header + 16) b.size)) [
        | inl big ↦
            let sum : size + (header + (b.size - size - header)) ≡ b.size = ground arith in
            rw (big, same, q_used, sum, whole) (ap (λ t. q ∷ t) rest)
        | inr small ↦ rw (small, same, q_used, whole) (ap (λ t. q ∷ t) rest)
      ]

module _ (size p : ℕ) (b : Block) (bs : List Block) where
  first_fit_here :
      (b.free && leb size b.size) ≡ true
      → first_fit size p (b ∷ bs) ≡ some (p + header, split size b bs)
  unfolding first_fit
  first_fit_here fits = rw fits refl

  first_fit_there :
      {a : ℕ} {cs : List Block}
      → (b.free && leb size b.size) ≡ false
      → first_fit size (p + header + b.size) bs ≡ some (a, cs)
      → first_fit size p (b ∷ bs) ≡ some (a, b ∷ cs)
  unfolding first_fit
  first_fit_there miss e = rw (miss, e) refl

  first_fit-none :
      (b.free && leb size b.size) ≡ false
      → first_fit size (p + header + b.size) bs ≡ none
      → first_fit size p (b ∷ bs) ≡ none
  unfolding first_fit
  first_fit-none miss e = rw (miss, e) refl

first_fit_nil : (size p : ℕ) → first_fit size p [] ≡ none
unfolding first_fit
first_fit_nil size p = refl

-- What a block that is passed over adds.
restore_pass :
    (p : ℕ) (q b : Block) (bs cs : List Block) (a : ℕ)
    → p + header + b.size + header ≤ a
    → (q.free && b.free) ≡ false
    → absorb b (release a (p + header + b.size) cs) ≡ b ∷ bs
    → absorb q (release a p (b ∷ cs)) ≡ q ∷ b ∷ bs
unfolding absorb release
restore_pass p q b bs cs a far apart ih =
    let miss : (a == p + header) ≡ false = ground arith in rw (miss, apart) (ap (λ t. q ∷ t) ih)

-- Where first fit gives out a payload lies behind the first header.
given_bound :
    (size p a : ℕ) (bs cs : List Block) → first_fit size p bs ≡ some (a, cs) → p + header ≤ a
given_bound size p a bs cs e = elim (first_fit-Gives size p bs) [
  | inl (no_fit, small) ↦ absurd (cc)
  | inr (found, f, g) ↦
      subst (λ o. p + header ≤ o.0) (some-injective found (a, cs) (sym f ∙ e))
        (Live_bounds p found.1 found.0 g.got g.live).0
]

restore :
    (size p : ℕ) (q : Block) (bs : List Block) (a : ℕ) (cs : List Block)
    → Coalesced (q ∷ bs)
    → first_fit size p bs ≡ some (a, cs)
    → absorb q (release a p cs) ≡ q ∷ bs
restore size p q [] a cs co e = cc (first_fit_nil size p)
restore size p q (b ∷ bs) a cs co e = elim (Bool-cases (b.free && leb size b.size)) [
  | inl fits ↦
      subst (λ o. absorb q (release o.0 p o.1) ≡ q ∷ b ∷ bs)
        (some-injective (p + header, split size b bs) (a, cs)
          (sym (first_fit_here size p b bs fits) ∙ e))
        (restore_hit size p q b bs (ground arith) (ground arith) co)
  | inr miss ↦ elim (Option-cases (first_fit size (p + header + b.size) bs)) [
    | inl no_fit ↦ cc (first_fit-none size p b bs miss no_fit)
    | inr ((a', cs'), f) ↦
        subst (λ o. absorb q (release o.0 p o.1) ≡ q ∷ b ∷ bs)
          (some-injective (a', b ∷ cs') (a, cs) (sym (first_fit_there size p b bs miss f) ∙ e))
          (restore_pass p q b bs cs' a' (given_bound size (p + header + b.size) a' bs cs' f) co.0
            (restore size (p + header + b.size) b bs a' cs' co.1 f))
  ]
]

-- First fit, release and merge give back a sequence with no two free neighbours.
pub merge-release-first_fit :
    (size p : ℕ) (bs : List Block) (a : ℕ) (cs : List Block)
    → Coalesced bs
    → first_fit size p bs ≡ some (a, cs)
    → merge (release a p cs) ≡ bs
unfolding merge absorb
merge-release-first_fit size p bs a cs co e =
    used_head (release a p cs) (restore size p (block 0 false) bs a cs (Coalesced-cons bs co) e)
  where
    used_head : (xs : List Block) → absorb (block 0 false) xs ≡ block 0 false ∷ bs → merge xs ≡ bs
    used_head [] h = ap tail h
    used_head (x ∷ xs) h = ap tail h
