-- ===== src/CString/Compare.antt =====
-- What `strcmp` of kernel/lib/string.c says of two texts.
use frisca_os.Prelude.{
  ℕ, zero, suc, ◌+◌, ◌<◌, ◌≡◌, refl, ◌∙◌, true, false, ◌&&◌, not, List, [], ◌∷◌, length, arith,
  ◌==◌, if◌then◌else◌, ℕ_discrete,
}
use frisca_os.Prelude.Run.{ok}
use frisca_os.CString.{Memory, ℤ, pos, byte_difference, strcmp}
use frisca_os.CString.Text.{HasText}

-- The order of texts as dictionaries have it, by the first byte in which they differ.
unfoldable pub compare_texts : List ℕ → List ℕ → ℤ
unfolding byte_difference
compare_texts [] [] = pos 0
compare_texts [] (d ∷ ds) = byte_difference 0 d
compare_texts (c ∷ cs) [] = byte_difference c 0
compare_texts (c ∷ cs) (d ∷ ds) =
    let rest = compare_texts cs ds in if c == d then rest else byte_difference c d

strcmp_stop :
    (fuel : ℕ) (m : Memory) (s1 s2 : ℕ)
    → (not (m s1 == 0) && (m s1 == m s2)) ≡ false
    → strcmp (suc fuel) m s1 s2 ≡ ok (byte_difference (m s1) (m s2))
unfolding strcmp
strcmp_stop fuel m s1 s2 e = rw e refl

strcmp_go :
    (fuel : ℕ) (m : Memory) (s1 s2 : ℕ)
    → (not (m s1 == 0) && (m s1 == m s2)) ≡ true
    → strcmp (suc fuel) m s1 s2 ≡ strcmp fuel m (s1 + 1) (s2 + 1)
unfolding strcmp
strcmp_go fuel m s1 s2 e = rw e refl

difference_of : (a b c d : ℕ) → a ≡ c → b ≡ d → ok (byte_difference a b) ≡ ok (byte_difference c d)
difference_of a b c d e f = λ i. ok (byte_difference (e i) (f i))

difference_zero : ok (byte_difference 0 0) ≡ ok (pos 0)
unfolding byte_difference
difference_zero = refl

-- `strcmp` of two texts ends, with the difference of the first bytes that differ, the terminator of the
-- shorter one included, or 0 if the texts are the same.
pub strcmp-compare_texts :
    (t1 t2 : List ℕ) (fuel : ℕ) (m : Memory) (s1 s2 : ℕ)
    → HasText m s1 t1
    → HasText m s2 t2
    → length t1 < fuel
    → strcmp fuel m s1 s2 ≡ ok (compare_texts t1 t2)
unfolding compare_texts
strcmp-compare_texts t1 t2 zero m s1 s2 h k lt = absurd (omega arith)
strcmp-compare_texts [] [] (suc fuel) m s1 s2 h k lt =
    strcmp_stop fuel m s1 s2 (ground arith) ∙ difference_of (m s1) (m s2) 0 0 h k ∙ difference_zero
strcmp-compare_texts [] (d ∷ ds) (suc fuel) m s1 s2 h (k, _, _) lt =
    strcmp_stop fuel m s1 s2 (ground arith) ∙ difference_of (m s1) (m s2) 0 d h k
strcmp-compare_texts (c ∷ cs) [] (suc fuel) m s1 s2 (h, n, _) k lt =
    strcmp_stop fuel m s1 s2 (ground arith) ∙ difference_of (m s1) (m s2) c 0 h k
strcmp-compare_texts (c ∷ cs) (d ∷ ds) (suc fuel) m s1 s2 (h, n, hs) (k, o, ks) lt =
    elim (ℕ_discrete c d) [
      | yes e ↦
          let same : (c == d) ≡ true = ground arith in
          strcmp_go fuel m s1 s2 (ground arith)
          ∙ strcmp-compare_texts cs ds fuel m (s1 + 1) (s2 + 1) hs ks (omega arith)
          ∙ rw same refl
      | no ne ↦
          let differ : (c == d) ≡ false = ground arith in
          strcmp_stop fuel m s1 s2 (ground arith)
          ∙ difference_of (m s1) (m s2) c d h k
          ∙ rw differ refl
    ]
