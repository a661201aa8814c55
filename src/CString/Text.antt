-- ===== src/CString/Text.antt =====
-- `strlen`, `strcpy` and `memcpy` of kernel/lib/string.c on the text that stands in memory.
use frisca_os.Prelude.{
  ℕ, zero, suc, ◌+◌, ◌≤◌, ◌<◌, ◌≡◌, ◌≢◌, ◌⊎◌, refl, ap, ◌∙◌, true, false, List, [], ◌∷◌, length,
  arith, ◌==◌, ℕ_discrete,
}
use mathlib.Core.Path.{subst}
use frisca_os.Prelude.Run.{ok}
use frisca_os.CString.{Memory, poke, strlen, strlen_from, text_at, memcpy}

-- At `p` stand the bytes of the text, none of them 0, and then 0.
abbrev pub HasText : Memory → ℕ → List ℕ → Type 0
HasText m p [] = m p ≡ 0
HasText m p (c ∷ text) = (m p ≡ c) × (c ≢ 0) × HasText m (p + 1) text

strlen_from_lem :
    (text : List ℕ) (fuel len : ℕ) (m : Memory) (str : ℕ)
    → HasText m (str + len) text
    → length text < fuel
    → strlen_from fuel m str len ≡ ok (len + length text)
unfolding strlen_from
strlen_from_lem text zero len m str h lt = absurd (omega arith)
strlen_from_lem [] (suc fuel) len m str h lt =
    let e : (m (str + len) == 0) ≡ true = ground arith in rw e (ap ok (omega arith))
strlen_from_lem (c ∷ text) (suc fuel) len m str (here, nonzero, rest) lt =
    let e : (m (str + len) == 0) ≡ false = ground arith in
    let next : str + len + 1 ≡ str + (len + 1) = omega arith in
    rw e (
      strlen_from_lem text fuel (len + 1) m str (subst (λ p. HasText m p text) next rest)
        (omega arith)
      ∙ ap ok (omega arith))

-- `strlen` of a text ends, with the number of its bytes.
pub strlen_lem :
    (text : List ℕ) (fuel : ℕ) (m : Memory) (str : ℕ)
    → HasText m str text
    → length text < fuel
    → strlen fuel m str ≡ ok (length text)
unfolding strlen
strlen_lem text fuel m str h lt =
    let start : str ≡ str + 0 = omega arith in
    strlen_from_lem text fuel 0 m str (subst (λ p. HasText m p text) start h) lt
    ∙ ap ok (omega arith)

-- A text is what is read there.
pub text_at-HasText :
    (text : List ℕ) (fuel : ℕ) (m : Memory) (p : ℕ)
    → HasText m p text
    → length text < fuel
    → text_at fuel m p ≡ ok text
unfolding text_at
text_at-HasText text zero m p h lt = absurd (omega arith)
text_at-HasText [] (suc fuel) m p h lt = let e : (m p == 0) ≡ true = ground arith in rw e refl
text_at-HasText (c ∷ text) (suc fuel) m p (here, nonzero, rest) lt =
    let e : (m p == 0) ≡ false = ground arith in
    rw (e, text_at-HasText text fuel m (p + 1) rest (omega arith)) (λ i. ok (here i ∷ text))

pub poke_self : (a v : ℕ) (m : Memory) → poke a v m a ≡ v
poke_self a v m = let e : (a == a) ≡ true = ground arith in rw e refl

pub poke_ne : (a v x : ℕ) (m : Memory) → x ≢ a → poke a v m x ≡ m x
poke_ne a v x m ne = let e : (x == a) ≡ false = ground arith in rw e refl

-- `memcpy` leaves the bytes outside of the destination, and the destination holds what the source did.
memcpy_out :
    (n i dst src x : ℕ) (m : Memory)
    → (x < dst + i) ⊎ (dst + (i + n) ≤ x)
    → memcpy n i dst src m x ≡ m x
unfolding memcpy
memcpy_out zero i dst src x m o = refl
memcpy_out (suc n) i dst src x m o =
    memcpy_out n (i + 1) dst src x (poke (dst + i) (m (src + i)) m) (omega arith)
    ∙ poke_ne (dst + i) (m (src + i)) x m (omega arith)

memcpy_in :
    (n i dst src j : ℕ) (m : Memory)
    → (dst + (i + n) ≤ src + i) ⊎ (src + (i + n) ≤ dst + i)
    → i ≤ j
    → j < i + n
    → memcpy n i dst src m (dst + j) ≡ m (src + j)
unfolding memcpy
memcpy_in zero i dst src j m apart lo hi = absurd (omega arith)
memcpy_in (suc n) i dst src j m apart lo hi =
    let v = m (src + i) in
    let m' = poke (dst + i) v m in
    elim (ℕ_discrete i j) [
      | yes e ↦
          memcpy_out n (i + 1) dst src (dst + j) m' (omega arith)
          ∙ ap (λ k. poke (dst + k) (m (src + k)) m (dst + j)) e
          ∙ poke_self (dst + j) (m (src + j)) m
      | no ne ↦
          memcpy_in n (i + 1) dst src j m' (omega arith) (omega arith) (omega arith)
          ∙ poke_ne (dst + i) v (src + j) m (omega arith)
    ]

-- `memcpy` between two blocks that do not overlap: the destination holds what the source held, and no
-- other byte changes.
pub memcpy_lem :
    (n dst src : ℕ) (m : Memory)
    → (dst + n ≤ src) ⊎ (src + n ≤ dst)
    → ((j : ℕ) → j < n → memcpy n 0 dst src m (dst + j) ≡ m (src + j))
      × ((x : ℕ) → (x < dst) ⊎ (dst + n ≤ x) → memcpy n 0 dst src m x ≡ m x)
memcpy_lem n dst src m apart = (
  λ j lt. memcpy_in n 0 dst src j m (omega arith) (omega arith) (omega arith),
  λ x o. memcpy_out n 0 dst src x m (omega arith),
)
