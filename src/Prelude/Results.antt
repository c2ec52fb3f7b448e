-- ===== src/Prelude/Results.antt =====
-- Go's `(value, error)`: a value, or an error of the component's own type.
use mathlib.Core.Path.{◌≡◌, refl}
use mathlib.Core.Logic.{◌⊎◌, inl, inr}
use native.Mathlib.Omega.{arith}

pub data Result {ℓ} (E A : Type ℓ) : Type ℓ where
  ok : A → Result E A
  err : E → Result E A

infixl 5 ◌>>=◌ ◌>>◌
abbrev pub ◌>>=◌ {ℓ} : {E A B : Type ℓ} → Result E A → (A → Result E B) → Result E B
ok a >>= f = f a
err e >>= f = err e

abbrev pub ◌>>◌ {ℓ} : {E B : Type ℓ} → Result E (Unit {ℓ}) → Result E B → Result E B
m >> k = m >>= λ _. k

-- `if err != nil { return wrap(err) }`
abbrev pub map_err {ℓ} : {E F A : Type ℓ} → (E → F) → Result E A → Result F A
map_err f (ok a) = ok a
map_err f (err e) = err (f e)

pub Result-cases {ℓ} :
    {E A : Type ℓ} (r : Result E A) → ((a : A) × (r ≡ ok a)) ⊎ ((e : E) × (r ≡ err e))
Result-cases (ok a) = inl (a, refl)
Result-cases (err e) = inr (e, refl)

-- Go's `if err != nil { return err }` was passed: the step has a value, and the rest succeeds on it.
pub >>=-passed {ℓ} :
    {E A B : Type ℓ} (step : Result E A) (rest : A → Result E B) {final : B}
    → (step >>= rest) ≡ ok final
    → (value : A) × (step ≡ ok value) × (rest value ≡ ok final)
>>=-passed (err e) rest run = absurd (ground arith)
>>=-passed (ok value) rest run = (value, refl, run)

pub ok-injective {ℓ} :
    {E A : Type ℓ} {a b : A} {p q : Result E A} → p ≡ ok a → q ≡ ok b → p ≡ q → a ≡ b
ok-injective h k e = cc
