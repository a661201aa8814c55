-- ===== src/Prelude/Run.antt =====
-- What a run of C code over pointers and loops can come to.
use mathlib.Core.Path.{◌≡◌, refl, ap}
use mathlib.Core.Option.{Option, none, some}

-- `fault` is an access that C leaves undefined; `out_of_fuel` stands for a loop that has not ended.
pub data Run {ℓ} (A : Type ℓ) : Type ℓ where
  ok : A → Run A
  fault : Run A
  out_of_fuel : Run A

infixl 5 ◌>>=◌
abbrev pub ◌>>=◌ {ℓ κ} : {A : Type ℓ} {B : Type κ} → Run A → (A → Run B) → Run B
ok a >>= f = f a
fault >>= f = fault
out_of_fuel >>= f = out_of_fuel

-- A read that may miss.
abbrev pub need {ℓ} : {A : Type ℓ} → Option A → Run A
need none = fault
need (some a) = ok a

abbrev pub result_or {ℓ} : {A : Type ℓ} → A → Run A → A
result_or d (ok a) = a
result_or d fault = d
result_or d out_of_fuel = d

pub ok-injective {ℓ} : {A : Type ℓ} (a b : A) → ok a ≡ ok b → a ≡ b
ok-injective a b e = ap (result_or a) e

pub bind_assoc {ℓ κ μ} :
    {A : Type ℓ} {B : Type κ} {C : Type μ} (m : Run A) (f : A → Run B) (g : B → Run C)
    → ((m >>= f) >>= g) ≡ (m >>= (λ a. f a >>= g))
bind_assoc (ok a) f g = refl
bind_assoc fault f g = refl
bind_assoc out_of_fuel f g = refl
