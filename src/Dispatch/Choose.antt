-- ===== src/Dispatch/Choose.antt =====
-- The chain of tests in execute_command of kernel/shell.c, on the line that was typed.
use frisca_os.Prelude.{
  ℕ, ◌+◌, ◌-◌, ◌≤◌, ◌<◌, ◌≡◌, ◌⊎◌, inl, inr, refl, ap, ◌∙◌, Bool, true, false, ◌&&◌, List, [], ◌∷◌,
  length, get_or, get_or_beyond, arith, leb, ◌==◌, if◌then◌else◌, ℕ_discrete,
}
use frisca_os.Prelude.Ascii.{codes}
use frisca_os.Prelude.Run.{ok}
use frisca_os.CString.{Memory, strncmp}
use frisca_os.CString.Text.{HasText}
use frisca_os.CString.Compare.{compare_texts, strcmp-compare_texts}
use frisca_os.CString.Copy.{
  is_zero, NoZero, HasText-frame, HasText-NoZero, HasText-bytes, is_zero-byte_difference,
}
use frisca_os.Dispatch.{Command, Test, Places, LiteralsApart, with_literal, matches, select}

unfoldable pub same : List ℕ → List ℕ → Bool
same [] [] = true
same [] (d ∷ ds) = false
same (c ∷ cs) [] = false
same (c ∷ cs) (d ∷ ds) = c == d && same cs ds

-- The line begins with the text.
unfoldable pub starts : List ℕ → List ℕ → Bool
starts l [] = true
starts [] (d ∷ ds) = false
starts (c ∷ cs) (d ∷ ds) = c == d && starts cs ds

unfoldable pub fits : Test → List ℕ → Bool
unfolding same starts
fits (Test.word t c) l = same l (codes t)
fits (Test.prefix t c) l = starts l (codes t)

-- The command of the first test that fits the line.
unfoldable pub choose : List Test → List ℕ → Command
unfolding fits
choose [] l = Command.unknown
choose (Test.word t c ∷ ts) l = let rest = choose ts l in if fits (Test.word t c) l then c else rest
choose (Test.prefix t c ∷ ts) l =
    let rest = choose ts l in if fits (Test.prefix t c) l then c else rest

-- The literals of tests are texts of at most nine bytes.
abbrev pub literal_of : Test → List ℕ
literal_of (Test.word t c) = codes t
literal_of (Test.prefix t c) = codes t

abbrev pub Literals : List Test → Type 0
Literals [] = Unit {0}
Literals (t ∷ ts) = NoZero (literal_of t) × (length (literal_of t) ≤ 9) × Literals ts

same-compare_texts : (l t : List ℕ) → NoZero l → NoZero t → is_zero (compare_texts l t) ≡ same l t
unfolding same compare_texts is_zero
same-compare_texts [] [] a b = refl
same-compare_texts [] (d ∷ ds) (a) (ne, b) = is_zero-byte_difference 0 d ∙ ground arith
same-compare_texts (c ∷ cs) [] (ne, a) b = is_zero-byte_difference c 0 ∙ ground arith
same-compare_texts (c ∷ cs) (d ∷ ds) (_, a) (_, b) = elim (ℕ_discrete c d) [
  | yes e ↦ let eq : (c == d) ≡ true = ground arith in rw eq (same-compare_texts cs ds a b)
  | no ne ↦ let eq : (c == d) ≡ false = ground arith in rw eq (is_zero-byte_difference c d ∙ eq)
]

-- `strncmp` with the length of the second text tells whether the first begins with it.
starts-strncmp :
    (t l : List ℕ) (m : Memory) (p q : ℕ)
    → HasText m p l
    → HasText m q t
    → is_zero (strncmp (length t) m p q) ≡ starts l t
unfolding starts strncmp is_zero
starts-strncmp [] l m p q h k = refl
starts-strncmp (d ∷ ds) [] m p q h (k, ne, ks) =
    let end : (m p == 0) ≡ true = ground arith in
    let other : (m p == m q) ≡ false = ground arith in
    rw end (is_zero-byte_difference (m p) (m q) ∙ other)
starts-strncmp (d ∷ ds) (c ∷ cs) m p q (h, nc, hs) (k, nd, ks) = elim (ℕ_discrete c d) [
  | yes e ↦
      let more : (m p == 0) ≡ false = ground arith in
      let eq : (m p == m q) ≡ true = ground arith in
      let eq' : (c == d) ≡ true = ground arith in
      rw (more, eq, eq') (starts-strncmp ds cs m (p + 1) (q + 1) hs ks)
  | no ne ↦
      let more : (m p == 0) ≡ false = ground arith in
      let eq : (m p == m q) ≡ false = ground arith in
      let eq' : (c == d) ≡ false = ground arith in
      rw (more, eq, eq') (is_zero-byte_difference (m p) (m q) ∙ eq)
]

literal_in :
    (p i : ℕ) (t : List ℕ) (m : Memory) → i ≤ length t → with_literal p t m (p + i) ≡ get_or t i 0
literal_in p i t m le =
    let lo : leb p (p + i) ≡ true = ground arith in
    let hi : leb (p + i) (p + length t) ≡ true = ground arith in
    let at : p + i - p ≡ i = omega arith in rw (lo, hi) (ap (λ k. get_or t k 0) at)

literal_out :
    (p x : ℕ) (t : List ℕ) (m : Memory) → (x < p) ⊎ (p + length t < x) → with_literal p t m x ≡ m x
literal_out p x t m (inl lt) = let lo : leb p x ≡ false = ground arith in rw lo refl
literal_out p x t m (inr gt) =
    let lo : leb p x ≡ true = ground arith in
    let hi : leb x (p + length t) ≡ false = ground arith in rw (lo, hi) refl

module _ (p : Places) (l : List ℕ) (m : Memory) (there : HasText m p.command_buffer l)
    (apart : LiteralsApart p) (short : length l ≤ 255) (enough : length l < p.fuel) where
  line_beside :
      (t : List ℕ) → length t ≤ 9 → HasText (with_literal p.literal t m) p.command_buffer l
  line_beside t fits =
      HasText-frame l m (with_literal p.literal t m) p.command_buffer there
        (λ x lo hi. literal_out p.literal x t m (omega (arith, apart)))

  literal_there : (t : List ℕ) → NoZero t → HasText (with_literal p.literal t m) p.literal t
  literal_there t nz =
      HasText-bytes t (with_literal p.literal t m) p.literal nz
        (λ i lt. literal_in p.literal i t m (omega arith))
        (literal_in p.literal (length t) t m (omega arith)
          ∙ get_or_beyond t (length t) 0 (omega arith))

  matches-fits :
      (t : Test) → NoZero (literal_of t) → length (literal_of t) ≤ 9 → matches p t m ≡ ok (fits t l)
  unfolding matches fits
  matches-fits (Test.word t c) nz small =
      rw
        (strcmp-compare_texts l (codes t) p.fuel (with_literal p.literal (codes t) m)
          p.command_buffer p.literal (line_beside (codes t) small) (literal_there (codes t) nz)
          enough)
        (ap ok (same-compare_texts l (codes t) (HasText-NoZero l m p.command_buffer there) nz))
  matches-fits (Test.prefix t c) nz small = ap ok (
      starts-strncmp (codes t) l (with_literal p.literal (codes t) m) p.command_buffer p.literal
        (line_beside (codes t) small) (literal_there (codes t) nz))

  -- With the line in the buffer, the literals beside it, and fuel for it, the chain of `strcmp` and `strncmp`
  -- ends with the command of the first test that fits the line, and is unknown where none does.
  pub select-choose : (ts : List Test) → Literals ts → select p ts m ≡ ok (choose ts l)
  unfolding select choose
  select-choose [] lits = refl
  select-choose (Test.word t c ∷ ts) (nz, small, lits) =
      rw (matches-fits (Test.word t c) nz small, select-choose ts lits) (ground arith)
  select-choose (Test.prefix t c ∷ ts) (nz, small, lits) =
      rw (matches-fits (Test.prefix t c) nz small, select-choose ts lits) (ground arith)
