-- ===== src/Vfs/Listing.antt =====
-- What `vfs_list_files` of kernel/fs/vfs.c prints: a row for each file.
use mathlib.Core.Path.{subst}
use mathlib.Core.List.{append_assoc}
use frisca_os.Prelude.{
  ℕ, zero, suc, ◌+◌, ◌-◌, ◌*◌, ◌/◌, ◌%◌, ◌^◌, ◌≤◌, ◌<◌, ◌≡◌, ◌⊎◌, inl, inr, refl, ap, sym, true,
  false, List, [], ◌∷◌, ◌++◌, length, map, replicate, get_or, ltb, arith, ◌==◌, dec_lt,
}
use native.Mathlib.Nat.{pow-succ'}
use frisca_os.Prelude.Ascii.{codes}
use frisca_os.Prelude.Run.{ok}
use frisca_os.Allocator.{Allocator}
use frisca_os.CString.Text.{strlen_lem, text_at-HasText}
use frisca_os.Print.Digits.{
  Spells, Spells-zero, Spells-digit, Spells-Decimal, Decimal, zero-Decimal,
}
use frisca_os.Vfs.{Vfs, size_loop, size_text, list_rows, vfs_list_files}
use frisca_os.Vfs.Files.{File, no_file, Represents}
use frisca_os.Vga.Calls.{Call}

-- The row of a file: its name, spaces up to the column 33, and its size in decimal.
pub record Row (f : File) (calls : List Call) : Type 0 where
  pub size : List ℕ
  pub decimal : Decimal (length f.content) size
  pub is :
      calls
      ≡ Call.text f.name ∷ map Call.char (replicate (33 - length f.name) b' ')
        ++ Call.text size ∷ Call.text (codes "\n") ∷ []

-- The rows of `n` files from the file `i` on, one behind the other.
abbrev pub Rows : List File → ℕ → ℕ → List Call → Type 0
Rows fs zero i calls = calls ≡ []
Rows fs (suc n) i calls =
    (row : List Call) × (rest : List Call) × (calls ≡ row ++ rest)
    × Row (get_or fs i no_file) row
    × Rows fs n (i + 1) rest

module _ (A : Allocator) (fuel table : ℕ) where
  size_loop-Spells :
      (k n val : ℕ) (temp : List ℕ)
      → val < 10 ^ k
      → k < n
      → (text : List ℕ) × (size_loop A fuel table n val temp ≡ ok text) × Spells val k temp text
  unfolding size_loop
  size_loop-Spells k zero val temp small enough = absurd (omega arith)
  size_loop-Spells zero (suc n) val temp small enough =
      let none_left : ltb 0 val ≡ false = ground arith in
      (temp, rw none_left refl, Spells-zero val zero temp (omega arith))
  size_loop-Spells (suc k) (suc n) val temp small enough = elim (dec_lt 0 val) [
    | no zero_left ↦
        let none_left : ltb 0 val ≡ false = ground arith in
        (temp, rw none_left refl, Spells-zero val (suc k) temp (omega arith))
    | yes pos ↦
        let more : ltb 0 val ≡ true = ground arith in
        let w =
          size_loop-Spells k n (val / 10) ((b'0' + val % 10) ∷ temp) (omega (arith, pow-succ' 10 k))
            (omega arith) in
        (w.0, rw more w.1, Spells-digit val k temp w.0 pos w.2)
  ]

  -- A size that an `int` holds, in decimal.
  size_text-Decimal :
      (val : ℕ)
      → val < 2 ^ 31
      → (text : List ℕ) × (size_text A fuel table val ≡ ok text) × Decimal val text
  unfolding size_text
  size_text-Decimal val small = elim (dec_lt 0 val) [
    | no zero_left ↦
        let is_zero : (val == 0) ≡ true = ground arith in
        let none_left : val ≡ 0 = omega arith in
        (
          b'0' ∷ [],
          rw is_zero refl,
          subst (λ n. Decimal n (b'0' ∷ [])) (sym none_left) zero-Decimal,
        )
    | yes pos ↦
        let nonzero : (val == 0) ≡ false = ground arith in
        let an_int : ltb val (2 ^ 31) ≡ true = ground arith in
        let w = size_loop-Spells 10 11 val [] (omega arith) (omega arith) in
        (w.0, rw (nonzero, an_int) w.1, Spells-Decimal val w.0 pos w.2)
  ]

  module _ (v : Vfs A.State) (w : A.View) (fs : List File) (r : Represents A table v w fs)
      (enough : 32 ≤ fuel)
      (sizes : (i : ℕ) → i < length fs → length (get_or fs i no_file).content < 2 ^ 31) where
    list_rows-Rows :
        (n i : ℕ)
        → i + n ≡ length fs
        → (calls : List Call) × (list_rows A fuel table n i v ≡ ok calls) × Rows fs n i calls
    unfolding list_rows
    list_rows-Rows zero i all = ([], refl, refl)
    list_rows-Rows (suc n) i all =
        let f = get_or fs i no_file in
        let x = r.files i (omega arith) in
        let name =
          text_at-HasText f.name fuel v.bytes (table + 44 * i) x.name
            (omega (arith, x.name_short)) in
        let len =
          strlen_lem f.name fuel v.bytes (table + 44 * i) x.name (omega (arith, x.name_short)) in
        let size = size_text-Decimal (length f.content) (sizes i (omega arith)) in
        let rest = list_rows-Rows n (i + 1) (omega arith) in
        let padded : ltb (33 - length f.name) 1 ≡ false = ground (arith, x.name_short) in
        let row =
          Call.text f.name ∷ map Call.char (replicate (33 - length f.name) b' ')
          ++ Call.text size.0 ∷ Call.text (codes "\n") ∷ [] in
        (
          row ++ rest.0,
          rw (name, len, x.size, size.1, rest.1, padded)
              (ap ok (
                sym (
                  append_assoc
                    (Call.text f.name ∷ map Call.char (replicate (33 - length f.name) b' '))
                    (Call.text size.0 ∷ Call.text (codes "\n") ∷ []) rest.0))),
          (row, rest.0, refl, record { size = size.0; decimal = size.2; is = refl }, rest.2),
        )

    -- `vfs_list_files` over a table that holds files, none of 2 GB: if there is none it says so; else it
    -- prints two lines and, in order, a row for each file: its name, spaces up to the column 33, and the
    -- size in decimal.
    pub vfs_list_files-Rows :
        ((length fs ≡ 0)
          × (vfs_list_files A fuel table v ≡ ok (Call.text (codes "No files found.\n") ∷ [])))
        ⊎ ((0 < length fs)
            × ((calls : List Call) × (vfs_list_files A fuel table v
                  ≡ ok (
                      Call.text (codes "Name                             Size (Bytes)\n")
                      ∷ Call.text (codes "---------------------------------------------\n")
                      ∷ calls))
                × Rows fs (length fs) 0 calls))
    unfolding vfs_list_files
    vfs_list_files-Rows = elim (dec_lt 0 (length fs)) [
      | no none_left ↦
          let empty : (v.file_count == 0) ≡ true = ground (arith, r.count) in
          inl (omega arith, rw empty refl)
      | yes some_left ↦
          let not_empty : (v.file_count == 0) ≡ false = ground (arith, r.count) in
          let rows = list_rows-Rows v.file_count 0 (omega (arith, r.count)) in
          let listed = subst (λ n. Rows fs n 0 rows.0) r.count rows.2 in
          inr (some_left, (rows.0, rw (not_empty, rows.1) refl, listed))
    ]
