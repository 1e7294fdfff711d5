-- ===== src/Prelude/Outcome.antt =====
-- What a Python routine ends with: a value, an exception, or (in the model alone) no fuel left.
use mathlib.Core.Path.{◌≡◌, refl, subst}

-- The exceptions that the modelled code can raise: built-in ones, and MultipleResultsFound of
-- scalar_one_or_none.
pub data Exception : Type 0 where
  value_error key_error index_error multiple_results : Exception

pub data Outcome {ℓ} (A : Type ℓ) : Type ℓ where
  ret : A → Outcome A
  raise : Exception → Outcome A
  out_of_fuel : Outcome A

infixl 5 ◌>>=◌
abbrev pub ◌>>=◌ {ℓ κ} : {A : Type ℓ} {B : Type κ} → Outcome A → (A → Outcome B) → Outcome B
ret a >>= f = f a
raise e >>= f = raise e
out_of_fuel >>= f = out_of_fuel

-- Total correctness: the routine ends with a value, and the value satisfies `P`.
abbrev pub Returns {ℓ} : {A : Type ℓ} → Outcome A → (A → Type 0) → Type 0
Returns (ret a) P = P a
Returns (raise e) P = ⊥
Returns out_of_fuel P = ⊥

module _ {ℓ κ} {A : Type ℓ} {B : Type κ} where
  -- The rule for a bind: the rest is run at a value that satisfies the first postcondition.
  pub Returns-bind :
      (m : Outcome A) (f : A → Outcome B) (P : A → Type 0) (Q : B → Type 0)
      → Returns m P
      → ((a : A) → m ≡ ret a → P a → Returns (f a) Q)
      → Returns (m >>= f) Q
  Returns-bind (ret a) f P Q h k = k a refl h
  Returns-bind (raise e) f P Q h k = h
  Returns-bind out_of_fuel f P Q h k = h

  -- Inversion of a bind that ends with a value.
  pub >>=-eq-ret :
      (m : Outcome A) (f : A → Outcome B) {b : B}
      → (m >>= f) ≡ ret b
      → (a : A) × (m ≡ ret a) × (f a ≡ ret b)
  >>=-eq-ret (ret a) f h = (a, refl, h)
  >>=-eq-ret (raise e) f h = cc
  >>=-eq-ret out_of_fuel f h = cc

module _ {ℓ} {A : Type ℓ} where
  pub Returns-at : (m : Outcome A) (P : A → Type 0) {a : A} → Returns m P → m ≡ ret a → P a
  Returns-at (ret b) P {a} h e = let same : b ≡ a = cc in subst P same h
  Returns-at (raise x) P h e = absurd h
  Returns-at out_of_fuel P h e = absurd h

  pub Returns-value : (m : Outcome A) (P : A → Type 0) → Returns m P → (a : A) × (m ≡ ret a) × P a
  Returns-value (ret a) P h = (a, refl, h)
  Returns-value (raise e) P h = absurd h
  Returns-value out_of_fuel P h = absurd h

  pub Returns-weaken :
      (m : Outcome A) (P Q : A → Type 0) → Returns m P → ((a : A) → P a → Q a) → Returns m Q
  Returns-weaken (ret a) P Q h k = k a h
  Returns-weaken (raise e) P Q h k = h
  Returns-weaken out_of_fuel P Q h k = h

  pub Returns-and :
      (m : Outcome A) (P Q : A → Type 0) → Returns m P → Returns m Q → Returns m (λ a. P a × Q a)
  Returns-and (ret a) P Q h k = (h, k)
  Returns-and (raise e) P Q h k = h
  Returns-and out_of_fuel P Q h k = h
