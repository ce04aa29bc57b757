-- ===== src/Common/Results.antt =====
-- What a method that may raise comes to: a value, or an exception of the errors `E`.
use mathlib.Core.Path.{◌≡◌, refl}
use mathlib.Core.Logic.{◌⊎◌, inl, inr}

pub data Outcome {ℓ} (E : Type 0) (A : Type ℓ) : Type ℓ where
  returned : A → Outcome E A
  raised : E → Outcome E A

module _ {ℓ} {E : Type 0} {A B : Type ℓ} where
  infixl 10 ◌>>=◌
  -- An exception ends the method.
  abbrev pub ◌>>=◌ : Outcome E A → (A → Outcome E B) → Outcome E B
  returned a >>= f = f a
  raised e >>= f = raised e

pub Outcome-cases {ℓ} :
    {E : Type 0} {A : Type ℓ} (r : Outcome E A)
    → ((a : A) × (r ≡ returned a)) ⊎ ((e : E) × (r ≡ raised e))
Outcome-cases (returned a) = inl (a, refl)
Outcome-cases (raised e) = inr (e, refl)

-- A method that goes on in two steps.
pub two_steps {ℓ} :
    {E : Type 0} {A B C : Type ℓ} (r : Outcome E A) (step : A → Outcome E B)
    (last : B → Outcome E C)
    → (r >>= step >>= last) ≡ (r >>= λ a. step a >>= last)
two_steps (raised e) step last = refl
two_steps (returned a) step last = refl
