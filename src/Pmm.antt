-- ===== src/Pmm.antt =====
-- kernel/memory/pmm.c: the physical memory manager, a bitmap of 4 KB blocks.
-- The three static variables are the fields of `Pmm`; a word of the bitmap is its 32-bit pattern.
-- An access outside the bitmap, which C leaves undefined, reads 0 and writes nothing here; under
-- `Pmm.State.IsValid` no operation makes one.
pub mod Alloc
pub mod Free
pub mod Init
pub mod Inv
pub mod Null
pub mod Order
pub mod State
mod Tests
use frisca_os.Prelude.{
  ℕ, zero, suc, ◌+◌, ◌-◌, ◌*◌, ◌/◌, ◌%◌, ◌^◌, bit_and, bit_or, Bool, true, false, ◌&&◌, not, List,
  get_or, set, fill, ltb, ◌==◌, if◌then◌else◌,
}
use frisca_os.Prelude.Word.{add32, sub32, mul32, not32}

-- PMM_BLOCK_SIZE
abbrev pub block_size : ℕ
block_size = 4096

-- BITMAP_SIZE
abbrev pub bitmap_size : ℕ
bitmap_size = 128

pub record Pmm : Type 0 where
  pub bitmap : List ℕ
  pub max_blocks : ℕ
  pub used_blocks : ℕ

abbrev pub word : Pmm → ℕ → ℕ
word p bit = get_or p.bitmap (bit / 32) 0

-- `1 << (bit % 32)`, as a bit pattern.
abbrev pub mask : ℕ → ℕ
mask bit = 2 ^ (bit % 32)

pub set_bit : ℕ → Pmm → Pmm
set_bit bit p = record p { bitmap = set p.bitmap (bit / 32) (bit_or (word p bit) (mask bit)) }

pub clear_bit : ℕ → Pmm → Pmm
clear_bit bit p = record p {
  bitmap = set p.bitmap (bit / 32) (bit_and (word p bit) (not32 (mask bit)));
}

pub test_bit : ℕ → Pmm → Bool
test_bit bit p = not (bit_and (word p bit) (mask bit) == 0)

-- The loop of `pmm_init` over the blocks from `i` on, with `n` rounds left.
pub free_from : ℕ → ℕ → Pmm → Pmm
free_from zero i p = p
free_from (suc n) i p =
    let q = clear_bit i p in free_from n (i + 1) (record q { used_blocks = sub32 q.used_blocks 1 })

-- (1 * 1024 * 1024) / PMM_BLOCK_SIZE
abbrev start_block : ℕ
start_block = 256

-- `max_blocks` as `pmm_init` computes and clamps it.
abbrev pub capacity : ℕ → ℕ
capacity mem_size =
    if ltb (bitmap_size * 32) (mem_size / block_size)
    then bitmap_size * 32
    else mem_size / block_size

pub init : ℕ → Pmm → Pmm
unfolding free_from
init mem_size p =
    let n = capacity mem_size in
    free_from (n - start_block) start_block (record {
      bitmap = fill bitmap_size 0 (2 ^ 32 - 1) p.bitmap;
      max_blocks = n;
      used_blocks = n;
    })

-- The scan of `pmm_alloc_block` from block `i` on, with `n` rounds left. The address 0 is NULL.
pub scan : ℕ → ℕ → Pmm → ℕ × Pmm
scan zero i p = (0, p)
scan (suc n) i p = elim (test_bit i p) [
  | false ↦
      let q = set_bit i p in (mul32 i block_size, record q { used_blocks = add32 q.used_blocks 1 })
  | true ↦ scan n (i + 1) p
]

pub alloc_block : Pmm → ℕ × Pmm
unfolding scan
alloc_block p = if sub32 p.max_blocks p.used_blocks == 0 then (0, p) else scan p.max_blocks 0 p

pub free_block : ℕ → Pmm → Pmm
free_block addr p =
    let block = addr / block_size in
    if ltb block p.max_blocks && test_bit block p
    then (let q = clear_bit block p in record q { used_blocks = sub32 q.used_blocks 1 })
    else p

pub get_free_memory : Pmm → ℕ
get_free_memory p = mul32 (sub32 p.max_blocks p.used_blocks) block_size
