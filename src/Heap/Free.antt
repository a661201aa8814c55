-- ===== src/Heap/Free.antt =====
-- `kfree` of kernel/memory/heap.c, alone and after `kmalloc`.
use frisca_os.Prelude.{
  ℕ, ◌+◌, ◌-◌, ◌<◌, ◌≡◌, ◌^◌, true, false, inl, inr, refl, some, List, [], ◌∷◌, ◌==◌, arith, ◌∙◌,
  ap, ◌≢◌, sym,
}
use mathlib.Core.Path.{subst}
use frisca_os.Prelude.Run.{ok, ok-injective}
use frisca_os.Prelude.Word.{sub32}
use frisca_os.Heap.{node, Heap, header, rounds, write, coalesce, round_up, kmalloc, kfree}
use frisca_os.Heap.Layout.{Block, span, Chain, Holds, Live, Coalesced, merge, release}
use frisca_os.Heap.Layout.FirstFit.{Live_bounds}
use frisca_os.Heap.Layout.Merge.{merge-SameUse, merge-Coalesced}
use frisca_os.Heap.Layout.Release.{release-Marks}
use frisca_os.Heap.Layout.Restore.{merge-release-first_fit}
use frisca_os.Heap.Coalesce.{Merges, coalesce-Merges}
use frisca_os.Heap.Allocate.{kmalloc_refines, length-le-span}

-- The whole merging loop, from the first header.
coalesce_all :
    (h : Heap) (bs : List Block)
    → Chain h.cell h.heap_start bs
    → span bs ≡ 16384
    → 0 < h.heap_start
    → h.heap_start + 16384 < 2 ^ 32
    → Merges h.heap_start (merge bs) h (coalesce rounds h.heap_start h)
unfolding merge
coalesce_all h [] ch full pos top = absurd (omega arith)
coalesce_all h (b ∷ bs) ch full pos top =
    coalesce-Merges rounds h.heap_start b bs h ch pos (omega arith) (omega arith)
      (omega (arith, length-le-span bs))

-- `kfree` of the payload `a` leaves the heap `g`.
pub record Freed (h : Heap) (bs : List Block) (a : ℕ) (cs : List Block) (g : Heap) : Type 0 where
  pub returns : kfree a h ≡ ok g
  pub holds : Holds g cs
  pub same_start : g.heap_start ≡ h.heap_start
  pub coalesced : Coalesced cs
  pub gone : (n : ℕ) → ¬ (Live h.heap_start cs a n)
  pub kept : (x n : ℕ) → Live h.heap_start bs x n → x ≢ a → Live h.heap_start cs x n
  pub only : (x n : ℕ) → Live h.heap_start cs x n → Live h.heap_start bs x n

module _ {h : Heap} {bs : List Block} (holds : Holds h bs) (a n : ℕ)
    (live : Live h.heap_start bs a n) where
  kfree_step :
      (next : ℕ)
      → h.cell (a - header) ≡ some (node n false next)
      → kfree a h ≡ coalesce rounds h.heap_start (write h (a - header) (node n true next))
  unfolding kfree
  kfree_step next found =
      let bounds = Live_bounds h.heap_start bs a n live in
      let some_ptr : (a == 0) ≡ false = ground (arith, bounds.0) in
      let before : sub32 a header ≡ a - header =
        omega (arith, bounds.0, bounds.1, holds.below_top, holds.filled) in
      rw (some_ptr, before, found) refl

  -- `kfree` of a payload in use ends without a fault: no two free blocks are neighbours then, that
  -- payload is no longer in use, every other one still is, and the heap holds the blocks that
  -- releasing and merging give.
  pub kfree-Freed : (g : Heap) × Freed h bs a (merge (release a h.heap_start bs)) g
  kfree-Freed =
      let start = h.heap_start in
      let k = release-Marks a start h.cell bs n holds.chain live in
      let released = release a start bs in
      let same = merge-SameUse start released in
      let m =
        coalesce_all (write h (a - header) (node n true k.next)) released k.chain
          (k.releases.same_span ∙ holds.filled) holds.above_null holds.below_top in
      (
        m.heap,
        record {
          returns = kfree_step k.next k.found ∙ m.returns;
          holds = record {
            chain = rw m.same_start m.chain;
            filled = same.same_span ∙ k.releases.same_span ∙ holds.filled;
            words = same.words (k.releases.words holds.words);
            start_word = rw m.same_start holds.start_word;
            above_null = rw m.same_start holds.above_null;
            below_top = rw m.same_start holds.below_top;
          };
          same_start = m.same_start;
          coalesced = merge-Coalesced released;
          gone = λ j l. k.releases.gone j (same.only a j l);
          kept = λ x j l ne. same.kept x j (k.releases.kept x j l ne);
          only = λ x j l. k.releases.only x j (same.only x j l);
        },
      )

-- Over a heap with no two free neighbours, what `kmalloc` of a positive size gives out `kfree` takes
-- back: it ends without a fault, and the heap holds the blocks that it held before.
pub kfree-kmalloc :
    {h : Heap} {bs : List Block} (size a : ℕ) (g : Heap)
    → Holds h bs
    → Coalesced bs
    → 0 < size
    → kmalloc size h ≡ ok (a, g)
    → a ≢ 0
    → (g' : Heap) × (kfree a g ≡ ok g') × Holds g' bs
kfree-kmalloc {h} {bs} size a g holds co pos e ne = elim (kmalloc_refines h size pos holds) [
  | inl (no_fit, stays) ↦ absurd (ne (ap (λ o. o.0) (ok-injective (a, g) (0, h) (sym e ∙ stays))))
  | inr (b, cs, f, s) ↦
      let live = subst (λ t. Live t cs b s.gives.got) (sym s.same_start) s.gives.live in
      let (g', freed) = kfree-Freed s.holds b s.gives.got live in
      let restored : merge (release b f.heap_start cs) ≡ bs =
        rw s.same_start (merge-release-first_fit (round_up size) h.heap_start bs b cs co s.fit) in
      subst (λ o. (g' : Heap) × (kfree o.0 o.1 ≡ ok g') × Holds g' bs)
        (ok-injective (b, f) (a, g) (sym s.returns ∙ e))
        (g', freed.returns, subst (Holds g') restored freed.holds)
]
