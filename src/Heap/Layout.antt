-- ===== src/Heap/Layout.antt =====
-- The heap of kernel/memory/heap.c as the sequence of its blocks: what its list of headers stands
-- for, and `kmalloc` and `kfree` on such a sequence.
pub mod FirstFit
pub mod Merge
pub mod Release
pub mod Restore
use frisca_os.Prelude.{
  ℕ, ◌+◌, ◌-◌, ◌%◌, ◌<◌, ◌≡◌, ◌^◌, Bool, true, false, ◌&&◌, ◌⊎◌, Option, none, some, List, [], ◌∷◌,
  leb, ◌==◌, if◌then◌else◌,
}
use mathlib.Core.Option
use frisca_os.Heap.{Node, node, Heap, header}

-- A block: the size of its payload, and whether it is free.
pub record Block : Type 0 where
  pub size : ℕ
  pub free : Bool

abbrev pub block : ℕ → Bool → Block
block n f = record { size = n; free = f }

-- The bytes that blocks take, headers included.
abbrev pub span : List Block → ℕ
span [] = 0
span (b ∷ bs) = header + b.size + span bs

-- The link of a header whose block ends at `end`.
abbrev pub link : ℕ → List Block → ℕ
link end [] = 0
link end (_ ∷ _) = end

-- From `p` on the blocks lie one behind the other, each under its header, linked in order.
abbrev pub Chain : (ℕ → Option Node) → ℕ → List Block → Type 0
Chain c p [] = Unit {0}
Chain c p (b ∷ bs) =
    (c p ≡ some (node b.size b.free (link (p + header + b.size) bs)))
    × Chain c (p + header + b.size) bs

-- Every payload is a whole number of words.
abbrev pub Words : List Block → Type 0
Words [] = Unit {0}
Words (b ∷ bs) = (b.size % 4 ≡ 0) × Words bs

-- The heap holds the blocks: its 16 KB are tiled by them, and lie below 4 GB.
pub record Holds (h : Heap) (bs : List Block) : Type 0 where
  pub chain : Chain h.cell h.heap_start bs
  pub filled : span bs ≡ 16384
  pub words : Words bs
  pub start_word : h.heap_start % 4 ≡ 0
  pub above_null : 0 < h.heap_start
  pub below_top : h.heap_start + 16384 < 2 ^ 32

-- Taking `size` bytes of the block `b`.
unfoldable pub split : ℕ → Block → List Block → List Block
split size b bs =
    if leb (size + header + 16) b.size
    then block size false ∷ block (b.size - size - header) true ∷ bs
    else block b.size false ∷ bs

-- First fit from address `p` on: the payload given out, and the blocks then.
unfoldable pub first_fit : ℕ → ℕ → List Block → Option (ℕ × List Block)
first_fit size p [] = none
first_fit size p (b ∷ bs) =
    if b.free && leb size b.size
    then some (p + header, split size b bs)
    else Option.map (λ (a, cs). (a, b ∷ cs)) (first_fit size (p + header + b.size) bs)

-- Marking the block free whose payload is at `a`.
unfoldable pub release : ℕ → ℕ → List Block → List Block
release a p [] = []
release a p (b ∷ bs) =
    if a == p + header then block b.size true ∷ bs else b ∷ release a (p + header + b.size) bs

-- Merging each free block with the free blocks behind it.
unfoldable pub absorb : Block → List Block → List Block
absorb b [] = b ∷ []
absorb b (c ∷ cs) =
    if b.free && c.free
    then absorb (block (b.size + (header + c.size)) b.free) cs
    else b ∷ absorb c cs

unfoldable pub merge : List Block → List Block
unfolding absorb
merge [] = []
merge (b ∷ bs) = absorb b bs

-- A used block of `n` bytes has its payload at `a`.
abbrev pub Live : ℕ → List Block → ℕ → ℕ → Type 0
Live p [] a n = ⊥
Live p (b ∷ bs) a n =
    ((a ≡ p + header) × (b.free ≡ false) × (n ≡ b.size)) ⊎ Live (p + header + b.size) bs a n

-- No free block has `size` bytes.
abbrev pub NoFit : ℕ → List Block → Type 0
NoFit size [] = Unit {0}
NoFit size (b ∷ bs) = (b.free ≡ true → b.size < size) × NoFit size bs

-- No two neighbours are both free.
abbrev pub Coalesced : List Block → Type 0
Coalesced [] = Unit {0}
Coalesced (b ∷ []) = Unit {0}
Coalesced (b ∷ c ∷ cs) = ((b.free && c.free) ≡ false) × Coalesced (c ∷ cs)
