-- ===== src/CString/Copy.antt =====
-- Texts in memory under the writes of kernel/lib/string.c, and texts that are copied in part.
use mathlib.Core.Path.{subst}
use frisca_os.Prelude.{
  ℕ, zero, suc, ◌+◌, ◌≤◌, ◌<◌, ◌≡◌, ◌≢◌, ◌⊎◌, inl, inr, refl, ap, sym, ◌∙◌, true, false, List, [],
  ◌∷◌, ◌++◌, length, take, drop, get_or, Bool, ℕ_discrete, arith, ◌==◌,
}
use frisca_os.CString.{Memory, ℤ, pos, negsuc, poke, byte_difference}
use frisca_os.CString.Text.{HasText, poke_self, poke_ne}
use frisca_os.CString.Compare.{compare_texts}

-- A text depends on its bytes and its terminator alone.
pub HasText-frame :
    (text : List ℕ) (m m' : Memory) (p : ℕ)
    → HasText m p text
    → ((x : ℕ) → p ≤ x → x ≤ p + length text → m' x ≡ m x)
    → HasText m' p text
HasText-frame [] m m' p h same = same p (omega arith) (omega arith) ∙ h
HasText-frame (c ∷ text) m m' p (e, ne, rest) same = (
  same p (omega arith) (omega arith) ∙ e,
  ne,
  HasText-frame text m m' (p + 1) rest (λ x lo hi. same x (omega arith) (omega arith)),
)

-- The first `n` bytes of a text, copied and terminated.
pub HasText-take :
    (n : ℕ) (text : List ℕ) (m m' : Memory) (dst src : ℕ)
    → HasText m src text
    → n ≤ length text
    → ((j : ℕ) → j < n → m' (dst + j) ≡ m (src + j))
    → m' (dst + n) ≡ 0
    → HasText m' dst (take n text)
HasText-take zero text m m' dst src h le same end = ap m' (omega arith) ∙ end
HasText-take (suc n) [] m m' dst src h le same end = absurd (omega arith)
HasText-take (suc n) (c ∷ text) m m' dst src (e, ne, rest) le same end = (
  ap m' (omega arith) ∙ same 0 (omega arith) ∙ ap m (omega arith) ∙ e,
  ne,
  HasText-take n text m m' (dst + 1) (src + 1) rest (omega arith)
      (λ j lt. ap m' (omega arith) ∙ same (suc j) (omega arith) ∙ ap m (omega arith))
      (ap m' (omega arith) ∙ end),
)

abbrev pub NoZero : List ℕ → Type 0
NoZero [] = Unit {0}
NoZero (c ∷ cs) = (c ≢ 0) × NoZero cs

pub HasText-NoZero : (text : List ℕ) (m : Memory) (p : ℕ) → HasText m p text → NoZero text
HasText-NoZero [] m p h = tt
HasText-NoZero (c ∷ text) m p (e, ne, rest) = (ne, HasText-NoZero text m (p + 1) rest)

-- Two texts at one place are the same.
pub HasText-unique : (t u : List ℕ) (m : Memory) (p : ℕ) → HasText m p t → HasText m p u → t ≡ u
HasText-unique [] [] m p h k = refl
HasText-unique [] (d ∷ u) m p h (k, ne, _) = absurd (omega arith)
HasText-unique (c ∷ t) [] m p (h, ne, _) k = absurd (omega arith)
HasText-unique (c ∷ t) (d ∷ u) m p (h, _, hs) (k, _, ks) =
    λ i. ((sym h ∙ k) i ∷ HasText-unique t u m (p + 1) hs ks i)

unfoldable pub is_zero : ℤ → Bool
is_zero (pos zero) = true
is_zero (pos (suc n)) = false
is_zero (negsuc n) = false

pub is_zero-byte_difference : (c d : ℕ) → is_zero (byte_difference c d) ≡ (c == d)
unfolding is_zero byte_difference
is_zero-byte_difference c d = ground arith

-- Texts compare as 0 exactly if they are the same.
pub compare_texts_same :
    (t u : List ℕ)
    → NoZero t
    → NoZero u
    → ((is_zero (compare_texts t u) ≡ true) × (t ≡ u))
      ⊎ ((is_zero (compare_texts t u) ≡ false) × (t ≢ u))
unfolding compare_texts is_zero
compare_texts_same [] [] a b = inl (refl, refl)
compare_texts_same [] (d ∷ u) a (ne, _) = inr (is_zero-byte_difference 0 d ∙ ground arith, cc)
compare_texts_same (c ∷ t) [] (ne, _) b = inr (is_zero-byte_difference c 0 ∙ ground arith, cc)
compare_texts_same (c ∷ t) (d ∷ u) (_, a) (_, b) = elim (ℕ_discrete c d) [
  | yes e ↦
      let same : (c == d) ≡ true = ground arith in
      elim (compare_texts_same t u a b) [
        | inl (z, f) ↦ inl (rw same z, λ i. (e i ∷ f i))
        | inr (z, n) ↦ inr (rw same z, λ f. n (ap (drop 1) f))
      ]
  | no ne ↦
      let differ : (c == d) ≡ false = ground arith in
      inr (rw differ (is_zero-byte_difference c d ∙ differ), λ f. ne (ap (λ l. get_or l 0 0) f))
]

-- A text by its bytes.
pub HasText-bytes :
    (text : List ℕ) (m : Memory) (p : ℕ)
    → NoZero text
    → ((i : ℕ) → i < length text → m (p + i) ≡ get_or text i 0)
    → m (p + length text) ≡ 0
    → HasText m p text
HasText-bytes [] m p nz same end = ap m (omega arith) ∙ end
HasText-bytes (c ∷ text) m p (ne, nz) same end = (
  ap m (omega arith) ∙ same 0 (omega arith),
  ne,
  HasText-bytes text m (p + 1) nz (λ i lt. ap m (omega arith) ∙ same (suc i) (omega arith))
      (ap m (omega arith) ∙ end),
)

-- The end of a text is a text.
pub HasText-drop :
    (t u : List ℕ) (m : Memory) (p : ℕ) → HasText m p (t ++ u) → HasText m (p + length t) u
HasText-drop [] u m p h = subst (λ q. HasText m q u) (omega arith) h
HasText-drop (c ∷ t) u m p (e, ne, rest) =
    subst (λ q. HasText m q u) (omega arith) (HasText-drop t u m (p + 1) rest)

-- A text that is cut off by a terminator.
pub HasText-cut :
    (t u : List ℕ) (m : Memory) (p : ℕ)
    → HasText m p (t ++ u)
    → HasText (poke (p + length t) 0 m) p t
HasText-cut [] u m p h = ap (poke (p + 0) 0 m) (omega arith) ∙ poke_self (p + 0) 0 m
HasText-cut (c ∷ t) u m p (e, ne, rest) = (
  poke_ne (p + suc (length t)) 0 p m (omega arith) ∙ e,
  ne,
  subst (λ q. HasText (poke q 0 m) (p + 1) t) (omega arith) (HasText-cut t u m (p + 1) rest),
)
