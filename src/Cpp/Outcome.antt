-- ===== src/Cpp/Outcome.antt =====
-- How a call ends: with a value, by an exception, or in undefined behaviour.
use db_benchmark.Prelude.{ℕ, ◌≡◌, refl, ◌⊎◌, inl, inr, List}

pub data Exception : Type 0 where
  runtime_error invalid_argument other_exception : List ℕ → Exception

-- `what()`
abbrev pub what : Exception → List ℕ
what (runtime_error message) = message
what (invalid_argument message) = message
what (other_exception message) = message

-- `undefined` is a call whose behaviour the language does not define, such as a function that
-- flows off its end without returning its value.
pub data Outcome {ℓ} (A : Type ℓ) : Type ℓ where
  ok : A → Outcome A
  throw : Exception → Outcome A
  undefined : Outcome A

infixl 10 ◌>>=◌ ◌>>◌
abbrev pub ◌>>=◌ {ℓ κ} : {A : Type ℓ} {B : Type κ} → Outcome A → (A → Outcome B) → Outcome B
ok a >>= f = f a
throw e >>= f = throw e
undefined >>= f = undefined

abbrev pub ◌>>◌ {ℓ κ} : {A : Type ℓ} {B : Type κ} → Outcome A → Outcome B → Outcome B
m >> n = m >>= λ _. n

-- To split on how a call ended and keep the equation.
pub outcome_cases :
    {A : Type 0} (x : Outcome A)
    → ((a : A) × (x ≡ ok a)) ⊎ (((e : Exception) × (x ≡ throw e)) ⊎ (x ≡ undefined))
outcome_cases (ok a) = inl (a, refl)
outcome_cases (throw e) = inr (inl (e, refl))
outcome_cases undefined = inr (inr refl)

-- what is done to the value of a call that returns one
abbrev pub mapped {ℓ κ} : {A : Type ℓ} {B : Type κ} → (A → B) → Outcome A → Outcome B
mapped f (ok a) = ok (f a)
mapped f (throw e) = throw e
mapped f undefined = undefined

-- two calls, one after the other
abbrev pub both {ℓ} : {A B : Type ℓ} → Outcome A → Outcome B → Outcome (A × B)
both x y = x >>= λ a. mapped (λ b. (a, b)) y

-- `catch(...) {}`
abbrev pub caught : Outcome (Unit {0}) → Outcome (Unit {0})
caught (ok a) = ok a
caught (throw e) = ok tt
caught undefined = undefined
