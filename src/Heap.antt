-- ===== src/Heap.antt =====
-- kernel/memory/heap.c: `kmalloc` and `kfree` over a linked list of headers in memory.
-- `cell a` is the header that was written at address `a`, if any; reading a header where none was
-- written, which C leaves undefined, is a fault. The payload bytes are not part of this state.
pub mod Allocate
pub mod Coalesce
pub mod Fit
pub mod Free
pub mod Init
pub mod Kmalloc
pub mod Layout
pub mod Provider
mod Tests
use frisca_os.Prelude.{
  ℕ, zero, suc, ◌+◌, ◌-◌, ◌*◌, Bool, true, false, ◌&&◌, Option, none, some, bit_and, leb, ◌==◌,
  if◌then◌else◌,
}
use frisca_os.Prelude.Run.{Run, ok, fault, out_of_fuel, ◌>>=◌, need}
use frisca_os.Prelude.Word.{add32, sub32, not32}
use frisca_os.Pmm
use frisca_os.Pmm.{Pmm, block_size}

-- `heap_node_t`
pub record Node : Type 0 where
  pub size : ℕ
  pub is_free : Bool
  pub next : ℕ

abbrev pub node : ℕ → Bool → ℕ → Node
node n f q = record { size = n; is_free = f; next = q }

pub record Heap : Type 0 where
  pub heap_start : ℕ
  pub cell : ℕ → Option Node

-- sizeof(heap_node_t): three fields of four bytes on the i386.
abbrev pub header : ℕ
header = 12

abbrev pub write : Heap → ℕ → Node → Heap
write h p n = record h { cell = λ a. if a == p then some n else h.cell a }

-- The three allocations whose result `heap_init` drops.
pub skip_blocks : ℕ → Pmm → Pmm
skip_blocks zero p = p
skip_blocks (suc n) p = skip_blocks n (Pmm.alloc_block p).1

pub heap_init : Pmm → Heap → Heap × Pmm
unfolding skip_blocks
heap_init p h =
    let (initial_mem, p1) = Pmm.alloc_block p in
    let first = node (4 * block_size - header) true 0 in
    (record (write h initial_mem first) { heap_start = initial_mem }, skip_blocks 3 p1)

-- `(size + 3) & ~3`
abbrev pub round_up : ℕ → ℕ
round_up size = bit_and (add32 size 3) (not32 3)

-- What `kmalloc` does with the node `n` at `cur` that it picks: split it if the rest is worth it,
-- mark it used, and return its payload.
unfoldable pub take_node : ℕ → ℕ → Node → Heap → ℕ × Heap
take_node size cur n h =
    let payload = add32 cur header in
    if leb (add32 (add32 size header) 16) n.size
    then (let new_node = add32 payload size in
        let split = write h new_node (node (sub32 (sub32 n.size size) header) true n.next) in
        (payload, write split cur (node size false new_node)))
    else (payload, write h cur (node n.size false n.next))

-- The `while` of `kmalloc` from `cur` on.
unfoldable pub find_fit : ℕ → ℕ → ℕ → Heap → Run (ℕ × Heap)
find_fit zero size cur h = out_of_fuel
find_fit (suc fuel) size cur h = if cur == 0 then ok (0, h) else do
  n ← need (h.cell cur)
  let rest = find_fit fuel size n.next h
  if n.is_free && leb size n.size then ok (take_node size cur n h) else rest

-- A heap of 16 KB has at most 1365 headers of 12 bytes.
abbrev pub rounds : ℕ
rounds = 1366

unfoldable pub kmalloc : ℕ → Heap → Run (ℕ × Heap)
kmalloc size h = if size == 0 then ok (0, h) else find_fit rounds (round_up size) h.heap_start h

-- The test `current->is_free && current->next->is_free`: the next header, where it is to be merged.
mergeable : Node → Heap → Run (Option Node)
mergeable n h =
    if n.is_free
    then (do m ← need (h.cell n.next); ok (if m.is_free then some m else none))
    else ok none

-- The `while` of `kfree` from `cur` on.
pub coalesce : ℕ → ℕ → Heap → Run Heap
unfolding mergeable
coalesce zero cur h = out_of_fuel
coalesce (suc fuel) cur h = if cur == 0 then ok h else do
  n ← need (h.cell cur)
  if n.next == 0 then ok h else do
    next ← mergeable n h
    elim next [
      | none ↦ coalesce fuel n.next h
      | some m ↦
          coalesce fuel cur
            (write h cur (node (add32 n.size (add32 header m.size)) n.is_free m.next))
    ]

pub kfree : ℕ → Heap → Run Heap
kfree ptr h = if ptr == 0 then ok h else do
  n ← need (h.cell (sub32 ptr header))
  coalesce rounds h.heap_start (write h (sub32 ptr header) (node n.size true n.next))
