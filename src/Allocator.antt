-- ===== src/Allocator.antt =====
-- What the callers of kmalloc of kernel/memory/heap.c rely on, as an interface: an operation, what
-- its state stands for, and which payloads are in use then. Heap/Provider.antt fills it.
use frisca_os.Prelude.{ℕ, ◌+◌, ◌^◌, ◌≤◌, ◌<◌, ◌≡◌, ◌⊎◌}
use frisca_os.Prelude.Run.{Run, ok}

pub record Allocator : Type 1 where
  pub State : Type 0
  pub View : Type 0
  pub alloc : ℕ → State → Run (ℕ × State)
  pub Holds : State → View → Type 0
  -- There is no room for a payload of so many bytes.
  pub Full : ℕ → View → Type 0
  pub InUse : View → ℕ → ℕ → Type 0
  pub low : ℕ
  pub high : ℕ
  pub above_null : (s : State) (v : View) → Holds s v → 0 < low
  pub in_bounds :
      (s : State) (v : View) (a n : ℕ) → Holds s v → InUse v a n → (low ≤ a) × (a + n ≤ high)
  -- NULL and no change where there is no room, else a payload of enough bytes that meets none in use; those stay in use.
  pub serves :
      (size : ℕ) (s : State) (v : View)
      → 0 < size
      → size + 3 < 2 ^ 32
      → Holds s v
      → (Full size v × (alloc size s ≡ ok (0, s)))
        ⊎ ((a : ℕ) × (got : ℕ) × (t : State) × (w : View) × (¬ (Full size v))
            × (alloc size s ≡ ok (a, t))
            × (size ≤ got)
            × Holds t w
            × InUse w a got
            × ((x n : ℕ) → InUse v x n → InUse w x n × ((a + got ≤ x) ⊎ (x + n ≤ a))))
