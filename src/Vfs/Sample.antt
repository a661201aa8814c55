-- ===== src/Vfs/Sample.antt =====
-- A table with one file, for the tests: "f" with the content "hi", in a heap at 1 MB; the name and the
-- content stand also at 0x1000, and a line of text at 0x4000.
use frisca_os.Prelude.{
  ℕ, ap, zero, suc, ◌+◌, ◌*◌, ◌-◌, ◌<◌, ◌≡◌, inl, refl, true, false, none, some, List, [], ◌∷◌,
  get_or, leb, arith, replicate, ◌==◌, if◌then◌else◌,
}
use frisca_os.CString.{Memory}
use frisca_os.Heap.{Heap, node}
use frisca_os.Heap.Layout.{Block, block}
use frisca_os.Heap.Provider.{heap_allocator}
use frisca_os.Vfs.{Vfs, empty_node}
use frisca_os.Vfs.Files.{File, no_file, FileAt, Represents}

abbrev pub sample_heap : Heap
sample_heap = record {
  heap_start = 0x100000;
  cell = λ a.
      if a == 0x100000
      then some (node 8 false 0x100014)
      else if a == 0x100014
      then some (node 16352 true 0)
      else none;
}

abbrev pub sample_blocks : List Block
sample_blocks = block 8 false ∷ block 16352 true ∷ []

abbrev sample_bytes : List ℕ → Memory
sample_bytes line a =
    if leb 0x100000 a
    then get_or (b'h' ∷ b'i' ∷ 0 ∷ []) (a - 0x10000c) 0
    else if leb 0x4000 a
    then get_or line (a - 0x4000) 0
    else if leb 0x2000 a
    then get_or (b'f' ∷ 0 ∷ []) (a - 0x2000) 0
    else get_or (b'f' ∷ 0 ∷ b'h' ∷ b'i' ∷ 0 ∷ []) (a - 0x1000) 0

abbrev pub sample : List ℕ → Vfs Heap
sample line = record {
  bytes = sample_bytes line;
  nodes = record { flags = 1; length = 2; buffer = 0x10000c } ∷ replicate 15 empty_node;
  file_count = 1;
  heap = sample_heap;
}

abbrev pub sample_files : List File
sample_files = record { name = b'f' ∷ []; content = b'h' ∷ b'i' ∷ [] } ∷ []

sample-FileAt :
    (line : List ℕ) (i : ℕ)
    → i < 1
    → FileAt
        (heap_allocator 0x100000)
        0x2000
        (sample_bytes line)
        sample_blocks
        (0x2000 + 44 * i)
        (get_or (sample line).nodes i empty_node)
        (get_or sample_files i no_file)
sample-FileAt line zero lt = record {
  name = (refl, omega arith, refl);
  name_short = omega arith;
  content = (refl, omega arith, (refl, omega arith, refl));
  size = refl;
  flags = refl;
  got = 8;
  in_use = inl (refl, refl, refl);
  fits = omega arith;
}
sample-FileAt line (suc i) lt = absurd (omega arith)

pub sample-Represents :
    (line : List ℕ)
    → Represents (heap_allocator 0x100000) 0x2000 (sample line) sample_blocks sample_files
sample-Represents line = record {
  heap = (
    record {
      chain = (refl, (refl, tt));
      filled = refl;
      words = (refl, (refl, tt));
      start_word = refl;
      above_null = omega arith;
      below_top = omega arith;
    },
    refl,
  );
  count = refl;
  bounded = omega arith;
  whole = refl;
  files = sample-FileAt line;
}

-- The line stands at 0x4000.
pub sample_line :
    (line : List ℕ) (i : ℕ) → i < 256 → (sample line).bytes (0x4000 + i) ≡ get_or line i 0
sample_line line i lt =
    let low : leb 0x100000 (0x4000 + i) ≡ false = ground arith in
    let high : leb 0x4000 (0x4000 + i) ≡ true = ground arith in
    let at : 0x4000 + i - 0x4000 ≡ i = omega arith in rw (low, high) (ap (λ k. get_or line k 0) at)
