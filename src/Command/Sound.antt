-- ===== src/Command/Sound.antt =====
-- What every command of kernel/shell.c keeps, and the commands that leave the file table alone.
use frisca_os.Prelude.{
  ℕ, ◌+◌, ◌/◌, ◌^◌, ◌≤◌, ◌<◌, ◌≡◌, inl, inr, refl, sym, ◌∙◌, false, none, List, [], ◌∷◌, ◌++◌,
  length, arith, ◌==◌,
}
use mathlib.Core.Path.{subst}
use mathlib.Core.List.{append-nil}
use frisca_os.Prelude.Run.{Run, ok, ◌>>=◌}
use frisca_os.Dispatch.{Places, LiteralsApart, System, Output, say}
use frisca_os.Heap.{Heap, header}
use frisca_os.Heap.Layout.{Block, Holds, Live, merge, release}
use frisca_os.Heap.Layout.FirstFit.{Live_bounds}
use frisca_os.Heap.Allocate.{kmalloc_refines}
use frisca_os.Heap.Free.{kfree-Freed}
use frisca_os.Heap.Provider.{heap_allocator}
use frisca_os.Pmm.{Pmm, alloc_block, free_block, get_free_memory}
use frisca_os.Pmm.State.{IsValid}
use frisca_os.Pmm.Alloc.{alloc_block_lem, get_free_memory_lem}
use frisca_os.Pmm.Free.{free_block_lem}
use frisca_os.Print.Decimal.{uint_text-Decimal}
use frisca_os.Vga.Calls.{Call}
use frisca_os.Vfs.Files.{File, FileAt-frame, Represents, Outside}
use frisca_os.Timer.{get_ticks}
use frisca_os.Command.{number, run_timer, run_mem, run_testmem, run_ps, run_testheap, give_back}

-- The state of the parts that the commands work on; no exception has come.
pub record Sound (p : Places) (s : System) (w : List Block) (fs : List File) : Type 0 where
  pub table : Represents (heap_allocator p.heap_start) p.table s.files w fs
  pub memory : IsValid s.pmm
  pub ticks : s.timer.ticks < 2 ^ 32
  pub counter : s.bg_counter < 2 ^ 32
  pub frequency : s.timer.target_freq ≡ 100
  pub alive : s.trap ≡ none

-- Where things stand: the buffer beside the table, both below the heap, and the literals beside the buffer;
-- and fuel for every string that fits in the heap.
pub record Roomy (p : Places) : Type 0 where
  pub scratch : length p.scratch ≡ 12
  pub beside : Outside (heap_allocator p.heap_start) p.table p.command_buffer 256
  pub below : p.table + 704 ≤ p.heap_start + header
  pub literals : LiteralsApart p
  pub fuel : 16384 < p.fuel

-- The second files are the first and more behind them.
abbrev pub Prefix : List File → List File → Type 0
Prefix fs gs = (more : List File) × (gs ≡ fs ++ more)

pub Prefix-refl : (fs : List File) → Prefix fs fs
Prefix-refl fs = ([], sym (append-nil fs))

-- The run ends, and what it leaves is sound; no payload of the blocks `w` was given back, and no file of
-- `fs` has changed.
pub record Keeps (p : Places) (w : List Block) (fs : List File) (run : Run Output) : Type 0 where
  pub calls : List Call
  pub after : System
  pub blocks : List Block
  pub files : List File
  pub returns : run ≡ ok (calls, after)
  pub sound : Sound p after blocks files
  pub kept : (x n : ℕ) → Live p.heap_start w x n → Live p.heap_start blocks x n
  pub grown : Prefix fs files

module _ (p : Places) (room : Roomy p) (s : System) (w : List Block) (fs : List File)
    (sound : Sound p s w fs) where
  -- A run that leaves the state.
  pub stays : {calls : List Call} → Keeps p w fs (ok (calls, s))
  stays {calls} = record {
    calls = calls;
    after = s;
    blocks = w;
    files = fs;
    returns = refl;
    sound = sound;
    kept = λ x n l. l;
    grown = Prefix-refl fs;
  }

  -- A word is printed.
  Keeps-number :
      (n : ℕ) (f : Call → Run Output)
      → n < 2 ^ 32
      → ((c : Call) → Keeps p w fs (f c))
      → Keeps p w fs (number p n >>= f)
  unfolding number
  Keeps-number n f lt keeps =
      let t = uint_text-Decimal n p.scratch lt room.scratch in
      subst (Keeps p w fs) (rw t.1 refl) (keeps (Call.text t.0))

  pub run_timer-Keeps : Keeps p w fs (run_timer p s)
  unfolding run_timer get_ticks
  run_timer-Keeps =
      Keeps-number (s.timer.ticks / 100) _ (omega (arith, sound.ticks))
        (λ a. Keeps-number s.timer.ticks _ sound.ticks (λ b. stays))

  pub run_mem-Keeps : Keeps p w fs (run_mem p s)
  unfolding run_mem
  run_mem-Keeps =
      Keeps-number (get_free_memory s.pmm / 1024) _
        (omega (arith, get_free_memory_lem sound.memory, sound.memory.clamped)) (λ a. stays)

  pub run_ps-Keeps : Keeps p w fs (run_ps p s)
  unfolding run_ps
  run_ps-Keeps = Keeps-number s.bg_counter _ sound.counter (λ a. stays)

  free_block-IsValid : (addr : ℕ) (q : Pmm) → IsValid q → IsValid (free_block addr q)
  free_block-IsValid addr q v = elim (free_block_lem v addr) [
    | inl (freeable, frees) ↦ frees.valid
    | inr (not_it, e) ↦ subst IsValid (sym e) v
  ]

  -- What an allocation gives is a word, and what it leaves is valid.
  alloc_block-IsValid : ((alloc_block s.pmm).0 < 2 ^ 32) × IsValid (alloc_block s.pmm).1
  alloc_block-IsValid = elim (alloc_block_lem sound.memory) [
    | inl (full, e) ↦
        subst (λ (o : ℕ × Pmm). (o.0 < 2 ^ 32) × IsValid o.1) (sym e) (omega arith, sound.memory)
    | inr (k, t) ↦ (omega (arith, t.address, t.first.managed, sound.memory.clamped), t.valid)
  ]

  pub run_testmem-Keeps : Keeps p w fs (run_testmem p s)
  unfolding run_testmem
  run_testmem-Keeps = Keeps-number (alloc_block s.pmm).0 _ alloc_block-IsValid.0 (λ a. record {
    calls = _;
    after = record s { pmm = free_block (alloc_block s.pmm).0 (alloc_block s.pmm).1 };
    blocks = w;
    files = fs;
    returns = refl;
    sound = record {
      table = sound.table;
      memory = free_block-IsValid (alloc_block s.pmm).0 (alloc_block s.pmm).1 alloc_block-IsValid.1;
      ticks = sound.ticks;
      counter = sound.counter;
      frequency = sound.frequency;
      alive = sound.alive;
    };
    kept = λ x n l. l;
    grown = Prefix-refl fs;
  })

  -- Another heap under the same files, whose payloads are still in use.
  with_heap :
      (h : Heap) (v : List Block)
      → Holds h v
      → h.heap_start ≡ p.heap_start
      → ((x n : ℕ) → Live p.heap_start w x n → Live p.heap_start v x n)
      → Sound p (record s { files = record s.files { heap = h } }) v fs
  with_heap h v holds start kept = record {
    table = record {
      heap = (holds, start);
      count = sound.table.count;
      bounded = sound.table.bounded;
      whole = sound.table.whole;
      files = λ i lt.
          let f = sound.table.files i lt in
          FileAt-frame (heap_allocator p.heap_start) p.table s.files.bytes s.files.bytes w v _ _ _ f
            (kept _ f.got f.in_use) (λ y lo hi. refl) (λ y lo hi. refl);
    };
    memory = sound.memory;
    ticks = sound.ticks;
    counter = sound.counter;
    frequency = sound.frequency;
    alive = sound.alive;
  }

  -- `kmalloc` and `kfree`: NULL, or a payload that is given back.
  pub run_testheap-Keeps : Keeps p w fs (run_testheap p s)
  unfolding run_testheap give_back
  run_testheap-Keeps = elim (kmalloc_refines s.files.heap 32 (omega arith) sound.table.heap.0) [
    | inl (no_fit, null) ↦ record {
      calls = say "Testing Heap Allocator (kmalloc)...\n" ∷ say "Failed to allocate memory!\n" ∷ [];
      after = s;
      blocks = w;
      files = fs;
      returns = rw null refl;
      sound = sound;
      kept = λ x n l. l;
      grown = Prefix-refl fs;
    }
    | inr (a, cs, g, sv) ↦
        let start : s.files.heap.heap_start ≡ p.heap_start = sound.table.heap.1 in
        let bounds = Live_bounds s.files.heap.heap_start cs a sv.gives.got sv.gives.live in
        let some_ptr : (a == 0) ≡ false = ground (arith, bounds.0) in
        let live = subst (λ q. Live q cs a sv.gives.got) (sym sv.same_start) sv.gives.live in
        let back = kfree-Freed sv.holds a sv.gives.got live in
        let freed = merge (release a g.heap_start cs) in
        let kept : (x n : ℕ) → Live p.heap_start w x n → Live p.heap_start freed x n = λ x n l.
          let old = subst (λ q. Live q w x n) (sym start) l in
          let taken = subst (λ q. Live q cs x n) (sym sv.same_start) (sv.gives.kept x n old) in
          subst (λ q. Live q freed x n) (sv.same_start ∙ start)
            (back.1.kept x n taken
              (λ e. sv.gives.fresh n (subst (λ y. Live s.files.heap.heap_start w y n) e old))) in
        record {
          calls =
              say "Testing Heap Allocator (kmalloc)...\n"
              ∷ say "Memory allocated successfully!\n"
              ∷ say "Freeing heap memory...\n"
              ∷ say "Done!\n"
              ∷ [];
          after = record s { files = record s.files { heap = back.0 } };
          blocks = _;
          files = fs;
          returns = rw (sv.returns, some_ptr, back.1.returns) refl;
          sound = with_heap back.0 _ back.1.holds (back.1.same_start ∙ sv.same_start ∙ start) kept;
          kept = kept;
          grown = Prefix-refl fs;
        }
  ]
