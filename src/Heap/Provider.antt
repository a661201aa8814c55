-- ===== src/Heap/Provider.antt =====
-- The heap of kernel/memory/heap.c, at a fixed start, as the allocator that its callers rely on.
use frisca_os.Prelude.{ℕ, ◌+◌, ◌*◌, ◌/◌, ◌^◌, ◌≤◌, ◌<◌, ◌≡◌, ◌⊎◌, inl, inr, sym, ◌∙◌, List, arith}
use mathlib.Core.Path.{subst}
use frisca_os.Prelude.Run.{ok}
use frisca_os.Allocator.{Allocator}
use frisca_os.Heap.{Heap, header, round_up, kmalloc}
use frisca_os.Heap.Layout.{Block, Holds, Live, NoFit}
use frisca_os.Heap.Layout.FirstFit.{Gives, Live_bounds, Live_apart}
use frisca_os.Heap.Allocate.{kmalloc_refines, round_up_lem, first_fit-NoFit, NoFit-of_none}

abbrev pub HoldsAt : ℕ → Heap → List Block → Type 0
HoldsAt start h bs = Holds h bs × (h.heap_start ≡ start)

module _ (start : ℕ) where
  pub HoldsAt-above_null : (h : Heap) (bs : List Block) → HoldsAt start h bs → 0 < start + header
  HoldsAt-above_null h bs at = omega arith

  pub HoldsAt-in_bounds :
      (h : Heap) (bs : List Block) (a n : ℕ)
      → HoldsAt start h bs
      → Live start bs a n
      → (start + header ≤ a) × (a + n ≤ start + 16384)
  HoldsAt-in_bounds h bs a n (holds, at) live =
      let bounds = Live_bounds start bs a n live in
      (bounds.0, omega (arith, bounds.1, holds.filled))

  pub HoldsAt-serves :
      (size : ℕ) (h : Heap) (bs : List Block)
      → 0 < size
      → size + 3 < 2 ^ 32
      → HoldsAt start h bs
      → (NoFit ((size + 3) / 4 * 4) bs × (kmalloc size h ≡ ok (0, h)))
        ⊎ ((a : ℕ) × (got : ℕ) × (g : Heap) × (cs : List Block) × (¬ (
              NoFit ((size + 3) / 4 * 4) bs))
            × (kmalloc size h ≡ ok (a, g))
            × (size ≤ got)
            × HoldsAt start g cs
            × Live start cs a got
            × ((x n : ℕ) → Live start bs x n → Live start cs x n × ((a + got ≤ x) ⊎ (x + n ≤ a))))
  HoldsAt-serves size h bs pos small (holds, at) =
      let rounded : round_up size ≡ (size + 3) / 4 * 4 = omega (arith, round_up_lem size) in
      elim (kmalloc_refines h size pos holds) [
        | inl (none_is, stays) ↦
            inl (rw (← rounded) (NoFit-of_none (round_up size) h.heap_start bs none_is), stays)
        | inr (a, cs, g, s) ↦
            let gives = subst (λ p. Gives (round_up size) p bs a cs) at s.gives in
            inr (
              a,
              gives.got,
              g,
              cs,
              λ full. cc (
                s.fit,
                first_fit-NoFit (round_up size) h.heap_start bs
                    (subst (λ n. NoFit n bs) (sym rounded) full),
              ),
              s.returns,
              omega (arith, round_up_lem size, gives.enough),
              (s.holds, s.same_start ∙ at),
              gives.live,
              λ x n l. (
                gives.kept x n l,
                elim (Live_apart start cs a gives.got x n gives.live (gives.kept x n l)) [
                  | inl (same, e) ↦
                      absurd (gives.fresh n (subst (λ y. Live start bs y n) (sym same) l))
                  | inr (inl after) ↦ inl (omega arith)
                  | inr (inr before) ↦ inr (omega arith)
                ],
              ),
            )
      ]

-- `kmalloc` over a heap that starts at `start`.
abbrev pub heap_allocator : ℕ → Allocator
heap_allocator start = record {
  State = Heap;
  View = List Block;
  alloc = kmalloc;
  Holds = HoldsAt start;
  Full = λ size bs. NoFit ((size + 3) / 4 * 4) bs;
  InUse = Live start;
  low = start + header;
  high = start + 16384;
  above_null = HoldsAt-above_null start;
  in_bounds = HoldsAt-in_bounds start;
  serves = HoldsAt-serves start;
}
