-- ===== src/Cpp/Method.antt =====
-- Methods of an object: a call returns how it ended and the state that it left, which is kept when
-- the call throws.
use db_benchmark.Cpp.Outcome.{Exception, Outcome, ok, throw, undefined}

abbrev pub Method {ℓ} : Type ℓ → Type ℓ → Type ℓ
Method S A = S → Outcome A × S

module _ {ℓ} {S A : Type ℓ} where
  abbrev pub pure : A → Method S A
  pure a s = (ok a, s)

  abbrev pub raise : Exception → Method S A
  raise e s = (throw e, s)

  abbrev pub lift : Outcome A → Method S A
  lift r s = (r, s)

  abbrev pub gets : (S → A) → Method S A
  gets f s = (ok (f s), s)

module _ {ℓ} {S A B : Type ℓ} where
  -- goes on with the value of a call that returned one
  abbrev pub then_do : Outcome A → (A → Method S B) → Method S B
  then_do (ok a) f s = f a s
  then_do (throw e) f s = (throw e, s)
  then_do undefined f s = (undefined, s)

  infixl 10 ◌>>=◌ ◌>>◌
  abbrev pub ◌>>=◌ : Method S A → (A → Method S B) → Method S B
  ◌>>=◌ m f s = then_do (m s).0 f (m s).1

  abbrev pub ◌>>◌ : Method S A → Method S B → Method S B
  m >> n = m >>= λ _. n
