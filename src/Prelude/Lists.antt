-- ===== src/Prelude/Lists.antt =====
-- Arrays as lists measured and indexed by native numbers, under the library's names.
use Prim.Native.Nat.{ℕ, zero, suc, ◌+◌, ◌<◌, ◌≤◌}
use mathlib.Core.Path.{◌≡◌, refl, ap, ◌∙◌}
use mathlib.Core.Logic.{◌≢◌, ◌⊎◌, inl, inr}
use mathlib.Core.List.{List, [], ◌∷◌, ◌++◌}
use mathlib.Core.Option.{Option, none, some}
use native.Mathlib.Decide.{ℕ_discrete}
use native.Mathlib.Omega.{arith}

module _ {ℓ} {A : Type ℓ} where
  abbrev pub length : List A → ℕ
  length [] = 0
  length (x ∷ xs) = suc (length xs)

  abbrev pub get_elem? : List A → ℕ → Option A
  get_elem? [] i = none
  get_elem? (x ∷ xs) zero = some x
  get_elem? (x ∷ xs) (suc i) = get_elem? xs i

  abbrev pub get_or : List A → ℕ → A → A
  get_or [] i d = d
  get_or (x ∷ xs) zero d = x
  get_or (x ∷ xs) (suc i) d = get_or xs i d

  -- A write out of bounds changes nothing.
  abbrev pub set : List A → ℕ → A → List A
  set [] i v = []
  set (x ∷ xs) zero v = v ∷ xs
  set (x ∷ xs) (suc i) v = x ∷ set xs i v

  abbrev pub take : ℕ → List A → List A
  take zero xs = []
  take (suc n) [] = []
  take (suc n) (x ∷ xs) = x ∷ take n xs

  abbrev pub drop : ℕ → List A → List A
  drop zero xs = xs
  drop (suc n) [] = []
  drop (suc n) (x ∷ xs) = drop n xs

  abbrev pub replicate : ℕ → A → List A
  replicate zero a = []
  replicate (suc n) a = a ∷ replicate n a

  pub length-append : (xs ys : List A) → length (xs ++ ys) ≡ length xs + length ys
  length-append [] ys = omega arith
  length-append (x ∷ xs) ys = omega (arith, length-append xs ys)

  pub get_or-append_left :
      (xs ys : List A) (i : ℕ) (d : A) → i < length xs → get_or (xs ++ ys) i d ≡ get_or xs i d
  get_or-append_left [] ys i d lt = absurd (omega arith)
  get_or-append_left (x ∷ xs) ys zero d lt = refl
  get_or-append_left (x ∷ xs) ys (suc i) d lt = get_or-append_left xs ys i d (omega arith)

  pub get_or-append_last : (xs : List A) (y d : A) → get_or (xs ++ y ∷ []) (length xs) d ≡ y
  get_or-append_last [] y d = refl
  get_or-append_last (x ∷ xs) y d = get_or-append_last xs y d

  pub take_beyond : (n : ℕ) (xs : List A) → length xs ≤ n → take n xs ≡ xs
  take_beyond zero [] le = refl
  take_beyond zero (x ∷ xs) le = absurd (omega arith)
  take_beyond (suc n) [] le = refl
  take_beyond (suc n) (x ∷ xs) le = ap (λ t. x ∷ t) (take_beyond n xs (omega arith))

  pub length-take : (n : ℕ) (xs : List A) → n ≤ length xs → length (take n xs) ≡ n
  length-take zero xs le = refl
  length-take (suc n) [] le = absurd (omega arith)
  length-take (suc n) (x ∷ xs) le = ap suc (length-take n xs (omega arith))

  pub length-set : (xs : List A) (i : ℕ) (v : A) → length (set xs i v) ≡ length xs
  length-set [] i v = refl
  length-set (x ∷ xs) zero v = refl
  length-set (x ∷ xs) (suc i) v = ap suc (length-set xs i v)

  pub length-replicate : (n : ℕ) (a : A) → length (replicate n a) ≡ n
  length-replicate zero a = refl
  length-replicate (suc n) a = ap suc (length-replicate n a)

  pub get_or_beyond : (xs : List A) (i : ℕ) (d : A) → length xs ≤ i → get_or xs i d ≡ d
  get_or_beyond [] i d h = refl
  get_or_beyond (x ∷ xs) zero d h = absurd (omega arith)
  get_or_beyond (x ∷ xs) (suc i) d h = get_or_beyond xs i d (omega arith)

  pub get_or-set_self :
      (xs : List A) (i : ℕ) (v d : A) → i < length xs → get_or (set xs i v) i d ≡ v
  get_or-set_self [] i v d h = absurd (omega arith)
  get_or-set_self (x ∷ xs) zero v d h = refl
  get_or-set_self (x ∷ xs) (suc i) v d h = get_or-set_self xs i v d (omega arith)

  pub get_or-set_ne :
      (xs : List A) (i j : ℕ) (v d : A) → i ≢ j → get_or (set xs i v) j d ≡ get_or xs j d
  get_or-set_ne [] i j v d h = refl
  get_or-set_ne (x ∷ xs) zero zero v d h = absurd (h refl)
  get_or-set_ne (x ∷ xs) zero (suc j) v d h = refl
  get_or-set_ne (x ∷ xs) (suc i) zero v d h = refl
  get_or-set_ne (x ∷ xs) (suc i) (suc j) v d h = get_or-set_ne xs i j v d (λ e. h (ap suc e))

  pub get_or-set_cases :
      (xs : List A) (i j : ℕ) (v d : A)
      → (get_or (set xs i v) j d ≡ v) ⊎ (get_or (set xs i v) j d ≡ get_or xs j d)
  get_or-set_cases [] i j v d = inr refl
  get_or-set_cases (x ∷ xs) zero zero v d = inl refl
  get_or-set_cases (x ∷ xs) zero (suc j) v d = inr refl
  get_or-set_cases (x ∷ xs) (suc i) zero v d = inr refl
  get_or-set_cases (x ∷ xs) (suc i) (suc j) v d = get_or-set_cases xs i j v d

  -- Writing back what is read changes nothing.
  pub set-get_or : (xs : List A) (i : ℕ) (d : A) → set xs i (get_or xs i d) ≡ xs
  set-get_or [] i d = refl
  set-get_or (x ∷ xs) zero d = refl
  set-get_or (x ∷ xs) (suc i) d = ap (λ t. x ∷ t) (set-get_or xs i d)

  -- The last of two writes at one place stays.
  pub set-set : (xs : List A) (i : ℕ) (v w : A) → set (set xs i v) i w ≡ set xs i w
  set-set [] i v w = refl
  set-set (x ∷ xs) zero v w = refl
  set-set (x ∷ xs) (suc i) v w = ap (λ t. x ∷ t) (set-set xs i v w)

  pub drop-set :
      (xs : List A) (i : ℕ) (v : A) → i < length xs → drop i (set xs i v) ≡ v ∷ drop (suc i) xs
  drop-set [] i v lt = absurd (omega arith)
  drop-set (x ∷ xs) zero v lt = refl
  drop-set (x ∷ xs) (suc i) v lt = drop-set xs i v (omega arith)

  pub get_or-replicate : (n i : ℕ) (a d : A) → i < n → get_or (replicate n a) i d ≡ a
  get_or-replicate zero i a d h = absurd (omega arith)
  get_or-replicate (suc n) zero a d h = refl
  get_or-replicate (suc n) (suc i) a d h = get_or-replicate n i a d (omega arith)

-- for (j = i; j < i + n; j++) a[j] = v
module _ {ℓ} {A : Type ℓ} where
  pub fill : ℕ → ℕ → A → List A → List A
  fill zero i v xs = xs
  fill (suc n) i v xs = fill n (i + 1) v (set xs i v)

  pub length-fill : (n i : ℕ) (v : A) (xs : List A) → length (fill n i v xs) ≡ length xs
  unfolding fill
  length-fill zero i v xs = refl
  length-fill (suc n) i v xs = length-fill n (i + 1) v (set xs i v) ∙ length-set xs i v

  pub get_or-fill_out :
      (n i j : ℕ) (v d : A) (xs : List A)
      → (j < i) ⊎ (i + n ≤ j)
      → get_or (fill n i v xs) j d ≡ get_or xs j d
  unfolding fill
  get_or-fill_out zero i j v d xs h = refl
  get_or-fill_out (suc n) i j v d xs h =
      get_or-fill_out n (i + 1) j v d (set xs i v) (omega arith)
      ∙ get_or-set_ne xs i j v d (omega arith)

  pub get_or-fill_in :
      (n i j : ℕ) (v d : A) (xs : List A)
      → i ≤ j
      → j < i + n
      → j < length xs
      → get_or (fill n i v xs) j d ≡ v
  unfolding fill
  get_or-fill_in zero i j v d xs h k l = absurd (omega arith)
  get_or-fill_in (suc n) i j v d xs h k l = elim (ℕ_discrete i j) [
    | yes e ↦
        get_or-fill_out n (i + 1) j v d (set xs i v) (inl (omega arith))
        ∙ rw e (get_or-set_self xs j v d l)
    | no ne ↦
        get_or-fill_in n (i + 1) j v d (set xs i v) (omega arith) (omega arith) (rw length-set l)
  ]
