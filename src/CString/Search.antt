-- ===== src/CString/Search.antt =====
-- `strchr` of kernel/lib/string.c.
use frisca_os.Prelude.{
  ℕ, zero, suc, ◌+◌, ◌%◌, ◌^◌, ◌<◌, ◌≡◌, ◌≢◌, refl, ap, ◌∙◌, true, false, List, [], ◌∷◌, ◌++◌,
  length, arith, ◌==◌,
}
use frisca_os.Prelude.Run.{ok}
use frisca_os.CString.{Memory, strchr}
use frisca_os.CString.Text.{HasText}

abbrev pub Lacks : ℕ → List ℕ → Type 0
Lacks ch [] = Unit {0}
Lacks ch (c ∷ cs) = (c ≢ ch) × Lacks ch cs

-- `strchr` of a byte that stands in a text ends, with the address of the first.
pub strchr_found :
    (t u : List ℕ) (ch fuel : ℕ) (m : Memory) (p : ℕ)
    → HasText m p (t ++ ch ∷ u)
    → Lacks ch t
    → ch < 256
    → length t < fuel
    → strchr fuel m p ch ≡ ok (p + length t)
unfolding strchr
strchr_found t u ch zero m p h lacks byte lt = absurd (omega arith)
strchr_found [] u ch (suc fuel) m p (e, ne, rest) lacks byte lt =
    let it : (m p == ch % 2 ^ 8) ≡ true = ground arith in rw it (ap ok (omega arith))
strchr_found (c ∷ t) u ch (suc fuel) m p (e, ne, rest) (other, lacks) byte lt =
    let not_it : (m p == ch % 2 ^ 8) ≡ false = ground arith in
    let more : (m p == 0) ≡ false = ground arith in
    rw (not_it, more)
      (strchr_found t u ch fuel m (p + 1) rest lacks byte (omega arith) ∙ ap ok (omega arith))

-- `strchr` of a byte other than 0 that is not in a text ends, with NULL.
pub strchr_missing :
    (t : List ℕ) (ch fuel : ℕ) (m : Memory) (p : ℕ)
    → HasText m p t
    → Lacks ch t
    → 0 < ch
    → ch < 256
    → length t < fuel
    → strchr fuel m p ch ≡ ok 0
unfolding strchr
strchr_missing t ch zero m p h lacks pos byte lt = absurd (omega arith)
strchr_missing [] ch (suc fuel) m p e lacks pos byte lt =
    let not_it : (m p == ch % 2 ^ 8) ≡ false = ground arith in
    let end : (m p == 0) ≡ true = ground arith in rw (not_it, end) refl
strchr_missing (c ∷ t) ch (suc fuel) m p (e, ne, rest) (other, lacks) pos byte lt =
    let not_it : (m p == ch % 2 ^ 8) ≡ false = ground arith in
    let more : (m p == 0) ≡ false = ground arith in
    rw (not_it, more) (strchr_missing t ch fuel m (p + 1) rest lacks pos byte (omega arith))
