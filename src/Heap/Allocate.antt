-- ===== src/Heap/Allocate.antt =====
-- What a caller of `kmalloc` of kernel/memory/heap.c is given.
use frisca_os.Prelude.{
  ℕ, ◌+◌, ◌*◌, ◌/◌, ◌%◌, ◌≤◌, ◌<◌, ◌≡◌, ◌^◌, true, false, ◌⊎◌, inl, inr, refl, none, some, List, [],
  ◌∷◌, ◌==◌, ◌&&◌, leb, Bool-cases, arith, length, ◌∙◌, sym,
}
use mathlib.Core.Path.{subst}
use mathlib.Core.Option.{some-injective}
use frisca_os.Prelude.Bits.{bit_and_not_three}
use frisca_os.Prelude.Run.{ok}
use frisca_os.Prelude.Word.{add32}
use frisca_os.Heap.{Heap, header, rounds, find_fit, kmalloc, round_up}
use frisca_os.Heap.Layout.{Block, span, Holds, first_fit, Live, NoFit}
use frisca_os.Heap.Layout.FirstFit.{Gives, first_fit-Gives, Live_aligned, Live_bounds, Live_apart}
use frisca_os.Heap.Fit.{Fits}
use frisca_os.Heap.Kmalloc.{find_fit-Searched}

pub length-le-span : (bs : List Block) → length bs * header ≤ span bs
length-le-span [] = omega arith
length-le-span (b ∷ bs) = omega (arith, length-le-span bs)

pub round_up_lem : (size : ℕ) → round_up size ≡ add32 size 3 / 4 * 4
round_up_lem size = bit_and_not_three (add32 size 3) (omega arith)

-- The heap is never empty of blocks.
not_empty : {h : Heap} → Holds h [] → ⊥
not_empty holds = omega (arith, holds.filled)

module _ (size p : ℕ) (bs : List Block) where
  Gives-of_some :
      (out : ℕ × List Block) → first_fit size p bs ≡ some out → Gives size p bs out.0 out.1
  Gives-of_some out e = elim (first_fit-Gives size p bs) [
    | inl (no_fit, small) ↦ absurd (cc)
    | inr (found, f, g) ↦
        subst (λ o. Gives size p bs o.0 o.1) (some-injective found out (sym f ∙ e)) g
  ]

  pub NoFit-of_none : first_fit size p bs ≡ none → NoFit size bs
  NoFit-of_none e = elim (first_fit-Gives size p bs) [
    | inl (no_fit, small) ↦ small
    | inr (found, f, g) ↦ absurd (cc)
  ]

-- `kmalloc` gives out the payload at `a`, and leaves the heap `g` with the blocks `cs`.
pub record Serves (size : ℕ) (h : Heap) (bs : List Block) (a : ℕ) (cs : List Block) (g : Heap)
    : Type 0 where
  pub fit : first_fit (round_up size) h.heap_start bs ≡ some (a, cs)
  pub returns : kmalloc size h ≡ ok (a, g)
  pub holds : Holds g cs
  pub same_start : g.heap_start ≡ h.heap_start
  pub gives : Gives (round_up size) h.heap_start bs a cs
  pub aligned : a % 4 ≡ 0

-- `kmalloc` as first fit on the blocks: it fails and changes nothing where no free block has the
-- bytes, and gives out the first that has.
abbrev pub Served : ℕ → Heap → List Block → Type 0
Served size h bs =
    ((first_fit (round_up size) h.heap_start bs ≡ none) × (kmalloc size h ≡ ok (0, h)))
    ⊎ ((a : ℕ) × (cs : List Block) × (g : Heap) × Serves size h bs a cs g)

-- Where no free block has the bytes, first fit fails.
pub first_fit-NoFit : (size p : ℕ) (bs : List Block) → NoFit size bs → first_fit size p bs ≡ none
unfolding first_fit
first_fit-NoFit size p [] h = refl
first_fit-NoFit size p (b ∷ bs) (here, rest) = elim (Bool-cases (b.free && leb size b.size)) [
  | inl hit ↦ absurd (ground (arith, here))
  | inr miss ↦ rw (miss, first_fit-NoFit size (p + header + b.size) bs rest) refl
]

module _ (h : Heap) (size : ℕ) (pos : 0 < size) where
  kmalloc_step : kmalloc size h ≡ find_fit rounds (round_up size) h.heap_start h
  unfolding kmalloc
  kmalloc_step = let e : (size == 0) ≡ false = ground arith in rw e refl

  Serves-Fits :
      {bs : List Block}
      → Holds h bs
      → (f : Fits
          (round_up size)
          h.heap_start
          bs
          h
          (find_fit rounds (round_up size) h.heap_start h))
      → Serves size h bs f.addr f.blocks f.heap
  Serves-Fits {bs} holds f =
      let gives = Gives-of_some (round_up size) h.heap_start bs (f.addr, f.blocks) f.fit in
      let words = gives.words (omega (arith, round_up_lem size)) holds.words in
      record {
        fit = f.fit;
        returns = kmalloc_step ∙ f.returns;
        holds = record {
          chain = rw f.same_start f.chain;
          filled = f.same_span ∙ holds.filled;
          words = words;
          start_word = rw f.same_start holds.start_word;
          above_null = rw f.same_start holds.above_null;
          below_top = rw f.same_start holds.below_top;
        };
        same_start = f.same_start;
        gives = gives;
        aligned =
            Live_aligned h.heap_start f.blocks f.addr gives.got holds.start_word words gives.live;
      }

  -- kmalloc of a positive size over linked headers in memory refines first fit on the sequence of
  -- blocks: it returns NULL and changes nothing where first fit for the rounded size fails;
  -- otherwise it returns the payload that first fit picks, and the heap then holds the blocks that
  -- first fit leaves.
  pub kmalloc_refines : {bs : List Block} → Holds h bs → Served size h bs
  kmalloc_refines {bs = []} holds = absurd (not_empty holds)
  kmalloc_refines {bs = b ∷ bs} holds =
      elim (find_fit-Searched (round_up size) h rounds h.heap_start b bs holds.chain
        holds.above_null (omega (arith, holds.filled))
        (omega (arith, holds.filled, holds.below_top))
        (omega (arith, length-le-span bs, holds.filled))) [
          | inl (no_fit, stays) ↦ inl (no_fit, kmalloc_step ∙ stays)
          | inr f ↦ inr (f.addr, f.blocks, f.heap, Serves-Fits holds f)
        ]

  -- `kmalloc` of a positive size that the rounding does not wrap, over a heap that holds the blocks
  -- `bs`: it returns NULL and changes nothing if no free block has the rounded size; otherwise it
  -- returns a payload of at least `size` bytes, inside the heap, that does not meet any payload in
  -- use, nor the header before either.
  pub kmalloc_separates :
      {bs : List Block}
      → Holds h bs
      → size + 3 < 2 ^ 32
      → (NoFit ((size + 3) / 4 * 4) bs × (kmalloc size h ≡ ok (0, h)))
        ⊎ ((a : ℕ) × (got : ℕ) × (g : Heap) × (kmalloc size h ≡ ok (a, g))
            × (size ≤ got)
            × (h.heap_start + header ≤ a)
            × (a + got ≤ h.heap_start + 16384)
            × ((x n : ℕ)
                → Live h.heap_start bs x n
                → (a + got + header ≤ x) ⊎ (x + n + header ≤ a)))
  kmalloc_separates {bs} holds small =
      let rounded : round_up size ≡ (size + 3) / 4 * 4 = omega (arith, round_up_lem size) in
      elim (kmalloc_refines holds) [
        | inl (no_fit, stays) ↦
            inl (rw (← rounded) (NoFit-of_none (round_up size) h.heap_start bs no_fit), stays)
        | inr (a, cs, g, s) ↦
            let start = h.heap_start in
            let got = s.gives.got in
            let bounds = Live_bounds start cs a got s.gives.live in
            let full : span cs ≡ 16384 = s.holds.filled in
            inr (
              a,
              got,
              g,
              s.returns,
              omega (arith, rounded, s.gives.enough),
              bounds.0,
              omega (arith, bounds.1, full),
              λ x n l. elim (Live_apart start cs a got x n s.gives.live (s.gives.kept x n l)) [
                | inl (same, e) ↦ absurd (s.gives.fresh n (rw same l))
                | inr apart ↦ apart
              ],
            )
      ]

-- Some block is free.
abbrev AnyFree : List Block → Type 0
AnyFree [] = ⊥
AnyFree (b ∷ bs) = (b.free ≡ true) ⊎ AnyFree bs
