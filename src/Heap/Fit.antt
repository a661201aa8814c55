-- ===== src/Heap/Fit.antt =====
-- `kmalloc` of kernel/memory/heap.c against first fit on the sequence of blocks.
use frisca_os.Prelude.{
  ℕ, ◌+◌, ◌-◌, ◌≤◌, ◌<◌, ◌≡◌, ◌^◌, true, false, ◌&&◌, refl, Option, some, List, [], ◌∷◌, leb, arith,
  ◌∙◌, ap, ◌≢◌, dec_lt,
}
use frisca_os.Prelude.Run.{Run, ok}
use frisca_os.Prelude.Word.{add32, sub32}
use frisca_os.Heap.{Node, node, Heap, header, write, take_node}
use frisca_os.Heap.Layout.{Block, block, span, link, Chain, split, first_fit}

-- A chain depends on no cell below its first header.
pub Chain-frame :
    (c d : ℕ → Option Node) (p : ℕ) (bs : List Block)
    → ((a : ℕ) → p ≤ a → d a ≡ c a)
    → Chain c p bs
    → Chain d p bs
Chain-frame c d p [] same ch = tt
Chain-frame c d p (b ∷ bs) same (here, rest) = (
  same p (omega arith) ∙ here,
  Chain-frame c d (p + header + b.size) bs (λ a h. same a (omega arith)) rest,
)

-- A run that gives out the payload at `addr` of the chain of `bs` from `p` on, and leaves the chain
-- of `blocks`, having written no cell below `p`.
pub record Fits (size p : ℕ) (bs : List Block) (h : Heap) (run : Run (ℕ × Heap)) : Type 0 where
  pub addr : ℕ
  pub blocks : List Block
  pub heap : Heap
  pub fit : first_fit size p bs ≡ some (addr, blocks)
  pub returns : run ≡ ok (addr, heap)
  pub chain : Chain heap.cell p blocks
  pub same_span : span blocks ≡ span bs
  pub same_link : (end : ℕ) → link end blocks ≡ link end bs
  pub same_start : heap.heap_start ≡ h.heap_start
  pub below : (a : ℕ) → a < p → heap.cell a ≡ h.cell a

pub write_self : (h : Heap) (p : ℕ) (n : Node) → (write h p n).cell p ≡ some n
write_self h p n = ground arith

write_other : (h : Heap) (p : ℕ) (n : Node) (a : ℕ) → a ≢ p → (write h p n).cell a ≡ h.cell a
write_other h p n a ne = ground arith

-- `take_node` where no sum wraps.
module _ (size cur : ℕ) (n : Node) (h : Heap) where
  no_wrap : size ≤ n.size → n.size ≤ 16384 → add32 (add32 size header) 16 ≡ size + header + 16
  no_wrap le small = omega arith

  take_node-split :
      n.size ≤ 16384
      → cur + header + n.size < 2 ^ 32
      → size + header + 16 ≤ n.size
      → let new_node = cur + header + size in
        take_node size cur n h ≡ (
          cur + header,
          write
              (write h new_node (node (n.size - size - header) true n.next))
              cur
              (node size false new_node),
        )
  unfolding take_node
  take_node-split small top big =
      let e : add32 cur header ≡ cur + header = omega arith in
      let f : add32 (cur + header) size ≡ cur + header + size = omega arith in
      let g : sub32 (sub32 n.size size) header ≡ n.size - size - header = omega arith in
      let t : leb (add32 (add32 size header) 16) n.size ≡ true = ground arith in
      rw (t, e, f, g) refl

  take_node-whole :
      size ≤ n.size
      → n.size ≤ 16384
      → cur + header + n.size < 2 ^ 32
      → n.size < size + header + 16
      → take_node size cur n h ≡ (cur + header, write h cur (node n.size false n.next))
  unfolding take_node
  take_node-whole le small top whole =
      let e : add32 cur header ≡ cur + header = omega arith in
      let t : leb (add32 (add32 size header) 16) n.size ≡ false =
        ground (arith, no_wrap le small) in
      rw (t, e) refl

module _ (size p : ℕ) (b : Block) (bs : List Block) (h : Heap) where
  abbrev pub here_node : Node
  here_node = node b.size b.free (link (p + header + b.size) bs)

  abbrev pub Took : Type 0
  Took = Fits size p (b ∷ bs) h (ok (take_node size p here_node h))

  module _ (ch : Chain h.cell p (b ∷ bs)) (small : span (b ∷ bs) ≤ 16384)
      (top : p + span (b ∷ bs) < 2 ^ 32) (free : b.free ≡ true) (enough : size ≤ b.size) where
    take_split : size + header + 16 ≤ b.size → Took
    unfolding first_fit split
    take_split big =
        let new_node = p + header + size in
        let rest = node (b.size - size - header) true (link (p + header + b.size) bs) in
        let one = write h new_node rest in
        let two = write one p (node size false new_node) in
        let fit : (b.free && leb size b.size) ≡ true = ground arith in
        let wide : leb (size + header + 16) b.size ≡ true = ground arith in
        let end : new_node + header + (b.size - size - header) ≡ p + header + b.size =
          omega arith in
        record {
          addr = p + header;
          blocks = block size false ∷ block (b.size - size - header) true ∷ bs;
          heap = two;
          fit = rw (fit, wide) refl;
          returns = ap ok (take_node-split size p here_node h (omega arith) (omega arith) big);
          chain = (
            write_self one p (node size false new_node),
            (
              write_other one p (node size false new_node) new_node (omega arith)
                  ∙ write_self h new_node rest
                  ∙ rw end refl,
              rw end (
                  Chain-frame h.cell two.cell (p + header + b.size) bs (λ a le. ground arith) ch.1),
            ),
          );
          same_span = omega arith;
          same_link = λ e. refl;
          same_start = refl;
          below = λ a lt. ground arith;
        }

    take_whole : b.size < size + header + 16 → Took
    unfolding first_fit split
    take_whole small_rest =
        let fit : (b.free && leb size b.size) ≡ true = ground arith in
        let wide : leb (size + header + 16) b.size ≡ false = ground arith in
        let n = node b.size false (link (p + header + b.size) bs) in
        record {
          addr = p + header;
          blocks = block b.size false ∷ bs;
          heap = write h p n;
          fit = rw (fit, wide) refl;
          returns =
              ap ok
                (take_node-whole size p here_node h enough (omega arith) (omega arith) small_rest);
          chain = (
            write_self h p n,
            Chain-frame h.cell (write h p n).cell (p + header + b.size) bs (λ a le. ground arith)
                ch.1,
          );
          same_span = refl;
          same_link = λ e. refl;
          same_start = refl;
          below = λ a lt. ground arith;
        }

    pub take_node-Fits : Took
    take_node-Fits = elim (dec_lt b.size (size + header + 16)) [
      | yes lt ↦ take_whole lt
      | no ge ↦ take_split (omega arith)
    ]
