-- ===== src/Paging.antt =====
-- kernel/memory/paging.c: the page directory and tables that map the first 16 MB.
-- Memory is a function from an address to the 32-bit word that is stored there; `load_page_directory`
-- and `enable_paging`, which are assembly, write the other two fields of `Machine`.
pub mod Identity
pub mod Memory
pub mod Tables
mod Tests
use frisca_os.Prelude.{ℕ, zero, suc, ◌+◌, ◌*◌, Bool, true, bit_or, ◌==◌, if◌then◌else◌}
use frisca_os.Prelude.Word.{u32}
use frisca_os.Pmm.{Pmm, alloc_block}

-- PAGE_PRESENT
abbrev page_present : ℕ
page_present = 0x1

-- PAGE_RW
abbrev page_rw : ℕ
page_rw = 0x2

pub record Machine : Type 0 where
  pub words : ℕ → ℕ
  pub cr3 : ℕ
  pub paging : Bool

abbrev pub store : ℕ → ℕ → (ℕ → ℕ) → ℕ → ℕ
store a v words = λ x. if x == a then v else words x

-- The loop that writes 2 to the directory's entries from `i` on, with `n` rounds left.
pub blank_directory : ℕ → ℕ → ℕ → (ℕ → ℕ) → ℕ → ℕ
blank_directory zero i dir words = words
blank_directory (suc n) i dir words = blank_directory n (i + 1) dir (store (dir + 4 * i) 0x2 words)

abbrev pub with_flags : ℕ → ℕ
with_flags address = bit_or (bit_or address page_present) page_rw

-- The loop that fills the table `t`.
pub fill_table : ℕ → ℕ → ℕ → ℕ → (ℕ → ℕ) → ℕ → ℕ
fill_table zero i t table words = words
fill_table (suc n) i t table words =
    let address = u32 (t * 4 * 1024 * 1024 + i * 0x1000) in
    fill_table n (i + 1) t table (store (table + 4 * i) (with_flags address) words)

-- The loop over the tables.
pub map_tables : ℕ → ℕ → ℕ → Pmm → (ℕ → ℕ) → (ℕ → ℕ) × Pmm
unfolding fill_table
map_tables zero t dir p words = (words, p)
map_tables (suc n) t dir p words =
    let (table, q) = alloc_block p in
    map_tables n (t + 1) dir q
      (store (dir + 4 * t) (with_flags table) (fill_table 1024 0 t table words))

pub paging_init : Pmm → Machine → Machine × Pmm
unfolding blank_directory map_tables
paging_init p m =
    let (dir, q) = alloc_block p in
    let (words, r) = map_tables 4 0 dir q (blank_directory 1024 0 dir m.words) in
    (record { words = words; cr3 = dir; paging = true }, r)
