-- ===== src/Heap/Layout/FirstFit.antt =====
-- What first fit does to the blocks of a heap, and to the payloads in use.
use frisca_os.Prelude.{
  ℕ, ◌+◌, ◌-◌, ◌%◌, ◌≤◌, ◌≡◌, Bool, true, false, ◌&&◌, ◌⊎◌, inl, inr, refl, none, some, List, [],
  ◌∷◌, leb, arith, Bool-cases,
}
use frisca_os.Heap.{header}
use frisca_os.Heap.Layout.{Block, block, span, Words, split, first_fit, Live, Coalesced, NoFit}

-- Payloads in use lie in the blocks.
pub Live_bounds :
    (p : ℕ) (bs : List Block) (x n : ℕ) → Live p bs x n → (p + header ≤ x) × (x + n ≤ p + span bs)
Live_bounds p (b ∷ bs) x n (inl l) = omega arith
Live_bounds p (b ∷ bs) x n (inr l) = omega (arith, Live_bounds (p + header + b.size) bs x n l)
Live_bounds p [] x n l = elim l [ ]

-- Two payloads in use are one, or a header lies between them.
pub Live_apart :
    (p : ℕ) (bs : List Block) (x n y m : ℕ)
    → Live p bs x n
    → Live p bs y m
    → ((x ≡ y) × (n ≡ m)) ⊎ ((x + n + header ≤ y) ⊎ (y + m + header ≤ x))
Live_apart p (b ∷ bs) x n y m (inl l) (inl k) = inl (omega arith)
Live_apart p (b ∷ bs) x n y m (inl l) (inr k) =
    inr (inl (omega (arith, Live_bounds (p + header + b.size) bs y m k)))
Live_apart p (b ∷ bs) x n y m (inr l) (inl k) =
    inr (inr (omega (arith, Live_bounds (p + header + b.size) bs x n l)))
Live_apart p (b ∷ bs) x n y m (inr l) (inr k) = Live_apart (p + header + b.size) bs x n y m l k
Live_apart p [] x n y m l k = elim l [ ]

-- Payloads in use are aligned.
pub Live_aligned :
    (p : ℕ) (bs : List Block) (x n : ℕ) → p % 4 ≡ 0 → Words bs → Live p bs x n → x % 4 ≡ 0
Live_aligned p (b ∷ bs) x n e w (inl l) = omega (arith, l.0)
Live_aligned p (b ∷ bs) x n e w (inr l) =
    Live_aligned (p + header + b.size) bs x n (omega (arith, w.0)) w.1 l
Live_aligned p [] x n e w l = elim l [ ]

-- What an allocation from `bs` to `cs` does: it gives out the payload at `a`, of `got` bytes.
pub record Gives (size p : ℕ) (bs : List Block) (a : ℕ) (cs : List Block) : Type 0 where
  pub got : ℕ
  pub enough : size ≤ got
  pub live : Live p cs a got
  pub fresh : (n : ℕ) → ¬ (Live p bs a n)
  pub kept : (x n : ℕ) → Live p bs x n → Live p cs x n
  pub only : (x n : ℕ) → Live p cs x n → (x ≡ a) ⊎ Live p bs x n
  pub words : size % 4 ≡ 0 → Words bs → Words cs
  pub coalesced : (q : Block) → Coalesced (q ∷ bs) → Coalesced (q ∷ cs)

-- Behind a free block stands a used one, whatever becomes of the free block.
Coalesced-head :
    (b : Block) (bs : List Block) (n : ℕ) (f : Bool)
    → b.free ≡ true
    → Coalesced (b ∷ bs)
    → Coalesced (block n f ∷ bs)
Coalesced-head b [] n f free co = tt
Coalesced-head b (c ∷ cs) n f free co = (ground arith, co.1)

module _ (size p : ℕ) (b : Block) (bs : List Block) (free : b.free ≡ true)
    (le : size ≤ b.size) where
  -- A payload in use is not that of the free block.
  beyond : (x n : ℕ) → Live p (b ∷ bs) x n → Live (p + header + b.size) bs x n
  beyond x n (inl l) = absurd (cc)
  beyond x n (inr l) = l

  fresh_here : (n : ℕ) → ¬ (Live p (b ∷ bs) (p + header) n)
  fresh_here n l =
      omega (arith, Live_bounds (p + header + b.size) bs (p + header) n (beyond (p + header) n l))

  hit_whole : Gives size p (b ∷ bs) (p + header) (block b.size false ∷ bs)
  hit_whole = record {
    got = b.size;
    enough = le;
    live = inl (refl, refl, refl);
    fresh = fresh_here;
    kept = λ x n l. inr (beyond x n l);
    only = λ x n l. elim l [ inl here ↦ inl here.0 | inr there ↦ inr (inr there) ];
    words = λ e w. w;
    coalesced = λ q co. (ground arith, Coalesced-head b bs b.size false free co.1);
  }

  hit_split :
      size + header + 16 ≤ b.size
      → Gives size p
          (b ∷ bs)
          (p + header)
          (block size false ∷ block (b.size - size - header) true ∷ bs)
  hit_split big =
      let end : p + header + size + header + (b.size - size - header) ≡ p + header + b.size =
        omega arith in
      record {
        got = size;
        enough = omega arith;
        live = inl (refl, refl, refl);
        fresh = fresh_here;
        kept = λ x n l. inr (inr (rw end (beyond x n l)));
        only = λ x n l. elim l [
          | inl here ↦ inl here.0
          | inr (inl rest) ↦ absurd (cc (rest.1))
          | inr (inr there) ↦ inr (inr (rw end at there))
        ];
        words = λ e w. (e, (omega (arith, w.0), w.1));
        coalesced = λ q co.
            (ground arith, (refl, Coalesced-head b bs (b.size - size - header) true free co.1));
      }

  first_fit_hit : Gives size p (b ∷ bs) (p + header) (split size b bs)
  unfolding split
  first_fit_hit = elim (Bool-cases (leb (size + header + 16) b.size)) [
    | inl big ↦ rw big (hit_split (ground arith))
    | inr whole ↦ rw whole hit_whole
  ]

-- A block that is passed over changes nothing.
first_fit_pass :
    (size p a : ℕ) (b : Block) (bs cs : List Block)
    → Gives size (p + header + b.size) bs a cs
    → Gives size p (b ∷ bs) a (b ∷ cs)
first_fit_pass size p a b bs cs g = record {
  got = g.got;
  enough = g.enough;
  live = inr g.live;
  fresh = λ n l. elim l [
    | inl here ↦ omega (arith, Live_bounds (p + header + b.size) cs a g.got g.live)
    | inr there ↦ g.fresh n there
  ];
  kept = λ x n l. elim l [ inl here ↦ inl here | inr there ↦ inr (g.kept x n there) ];
  only = λ x n l. elim l [
    | inl here ↦ inr (inl here)
    | inr there ↦ elim (g.only x n there) [ inl it ↦ inl it | inr old ↦ inr (inr old) ]
  ];
  words = λ e w. (w.0, g.words e w.1);
  coalesced = λ q co. (co.0, g.coalesced b co.1);
}

-- First fit either gives out a payload or meets no free block of that size.
pub first_fit-Gives :
    (size p : ℕ) (bs : List Block)
    → ((first_fit size p bs ≡ none) × NoFit size bs)
      ⊎ ((out : ℕ × List Block) × (first_fit size p bs ≡ some out) × Gives size p bs out.0 out.1)
unfolding first_fit
first_fit-Gives size p [] = inl (refl, tt)
first_fit-Gives size p (b ∷ bs) = elim (Bool-cases (b.free && leb size b.size)) [
  | inl fits ↦ rw fits (
      inr (
        (p + header, split size b bs),
        refl,
        first_fit_hit size p b bs (ground arith) (ground arith),
      ))
  | inr miss ↦ rw miss (elim (first_fit-Gives size (p + header + b.size) bs) [
    | inl (no_fit, small) ↦ inl (rw no_fit refl, (λ free. ground arith, small))
    | inr ((a, cs), e, g) ↦ inr ((a, b ∷ cs), rw e refl, first_fit_pass size p a b bs cs g)
  ])
]

pub Coalesced-tail : (b : Block) (bs : List Block) → Coalesced (b ∷ bs) → Coalesced bs
Coalesced-tail b [] co = tt
Coalesced-tail b (c ∷ cs) co = co.1

pub Coalesced-cons : (bs : List Block) → Coalesced bs → Coalesced (block 0 false ∷ bs)
Coalesced-cons [] co = tt
Coalesced-cons (c ∷ cs) co = (refl, co)
