-- ===== src/Vfs/Find.antt =====
-- The search for a name in kernel/fs/vfs.c, and `vfs_read_file`.
use frisca_os.Prelude.{
  ℕ, zero, suc, ◌+◌, ◌*◌, ◌≤◌, ◌<◌, ◌≡◌, ◌≢◌, ◌⊎◌, inl, inr, refl, ap, sym, ◌∙◌, List, length,
  get_or, Option, none, some, arith, ℕ_discrete,
}
use mathlib.Core.Path.{subst}
use frisca_os.Prelude.Run.{Run, ok}
use frisca_os.Allocator.{Allocator}
use frisca_os.CString.{Memory, strcmp}
use frisca_os.CString.Text.{HasText}
use frisca_os.CString.Compare.{compare_texts, strcmp-compare_texts}
use frisca_os.CString.Copy.{HasText-NoZero, compare_texts_same}
use frisca_os.Vfs.{Vfs, find_name, vfs_read_file}
use frisca_os.Vfs.Files.{File, no_file, Represents}

-- The first index from `i` on, of `n`, at which the name is `t`, if there is one.
abbrev pub FoundIn : (ℕ → List ℕ) → List ℕ → ℕ → ℕ → Run (Option ℕ) → Type 0
FoundIn names t n i run =
    ((run ≡ ok none) × ((j : ℕ) → i ≤ j → j < i + n → names j ≢ t))
    ⊎ ((k : ℕ) × (run ≡ ok (some k))
        × (i ≤ k)
        × (k < i + n)
        × (names k ≡ t)
        × ((j : ℕ) → i ≤ j → j < k → names j ≢ t))

-- The entry `i` is not it.
FoundIn-cons :
    (names : ℕ → List ℕ) (t : List ℕ) (n i : ℕ) (run : Run (Option ℕ))
    → names i ≢ t
    → FoundIn names t n (i + 1) run
    → FoundIn names t (suc n) i run
FoundIn-cons names t n i run ne (inl (e, none_is)) = inl (
  e,
  λ j lo hi. elim (ℕ_discrete i j) [
    | yes same ↦ λ f. ne (ap names same ∙ f)
    | no other ↦ none_is j (omega arith) (omega arith)
  ],
)
FoundIn-cons names t n i run ne (inr (k, e, lo, hi, it, first)) = inr (
  k,
  e,
  omega arith,
  omega arith,
  it,
  λ j l h. elim (ℕ_discrete i j) [
    | yes same ↦ λ f. ne (ap names same ∙ f)
    | no other ↦ first j (omega arith) h
  ],
)

module _ (A : Allocator) (fuel table name : ℕ) (bytes : Memory) (names : ℕ → List ℕ) (t : List ℕ)
    (there : HasText bytes name t) where
  compared :
      (i : ℕ)
      → HasText bytes (table + 44 * i) (names i)
      → length (names i) < fuel
      → strcmp fuel bytes (table + 44 * i) name ≡ ok (compare_texts (names i) t)
  compared i h lt = strcmp-compare_texts (names i) t fuel bytes (table + 44 * i) name h there lt

  pub find_name-FoundIn :
      (n i : ℕ)
      → ((j : ℕ)
          → i ≤ j
          → j < i + n
          → HasText bytes (table + 44 * j) (names j) × (length (names j) < fuel))
      → FoundIn names t n i (find_name A fuel table n i name bytes)
  unfolding find_name
  find_name-FoundIn zero i all = inl (refl, λ j lo hi. absurd (omega arith))
  find_name-FoundIn (suc n) i all =
      let (h, lt) = all i (omega arith) (omega arith) in
      elim (compare_texts_same (names i) t (HasText-NoZero (names i) bytes (table + 44 * i) h)
        (HasText-NoZero t bytes name there)) [
          | inl (z, same) ↦ inr (
            i,
            rw (compared i h lt, z) refl,
            omega arith,
            omega arith,
            same,
            λ j lo hi. absurd (omega arith),
          )
          | inr (z, differ) ↦
              subst (FoundIn names t (suc n) i) (sym (rw (compared i h lt, z) refl)) (
                FoundIn-cons names t n i (find_name A fuel table n (i + 1) name bytes) differ
                  (find_name-FoundIn n (i + 1) (λ j lo hi. all j (omega arith) (omega arith))))
        ]

-- The name of the file `i`.
abbrev pub name_of : List File → ℕ → List ℕ
name_of fs i = (get_or fs i no_file).name

-- `vfs_read_file` over a table that holds files, with fuel for 32 bytes: it ends, with the first file of
-- that name, or NULL where no file has it.
pub vfs_read_file-FoundIn :
    (A : Allocator) (fuel table name : ℕ) (v : Vfs A.State) (w : A.View) (fs : List File)
    (t : List ℕ)
    → Represents A table v w fs
    → HasText v.bytes name t
    → 32 ≤ fuel
    → FoundIn (name_of fs) t (length fs) 0 (vfs_read_file A fuel table name v)
unfolding vfs_read_file
vfs_read_file-FoundIn A fuel table name v w fs t r h enough =
    subst (λ n. FoundIn (name_of fs) t (length fs) 0 (find_name A fuel table n 0 name v.bytes))
      (sym r.count)
      (find_name-FoundIn A fuel table name v.bytes (name_of fs) t h (length fs) 0
        (λ j lo hi. let f = r.files j (omega arith) in (f.name, omega (arith, f.name_short))))
