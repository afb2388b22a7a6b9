-- ===== src/Common/Results.antt =====
-- Code that may throw: `err` carries the error's code.
use mathlib.Core.Path.{◌≡◌, refl}
use mathlib.Core.Logic.{◌⊎◌, inl, inr}
use mathlib.Core.Bool.{Bool, true, false}
use mathlib.Core.Option.{Option, none, some}

pub data Result {ε α} (E : Type ε) (A : Type α) : Type (ε ⊔ α) where
  ok : A → Result E A
  err : E → Result E A

-- `if (b) throw e;`
abbrev pub throw_if {ε} : {E : Type ε} → Bool → E → Result E (Unit {0})
throw_if thrown e = elim thrown [ false ↦ ok tt | true ↦ err e ]

-- `if (a === null) throw e;`
abbrev pub or_throw {ε α} : {E : Type ε} {A : Type α} → E → Option A → Result E A
or_throw e none = err e
or_throw e (some a) = ok a

infixl 5 ◌>>=◌
abbrev pub ◌>>=◌ {ε α β} :
    {E : Type ε} {A : Type α} {B : Type β} → Result E A → (A → Result E B) → Result E B
err thrown >>= rest = err thrown
ok value >>= rest = rest value

-- A statement whose value is not used.
infixl 5 ◌>>◌
abbrev pub ◌>>◌ {ε β} :
    {E : Type ε} {B : Type β} (statement : Result E (Unit {0})) (rest : Result E B) → Result E B
statement >> rest = statement >>= (λ done. rest)

module _ {ℓ κ} {E : Type ℓ} {A : Type κ} where
  pub Result-cases : (r : Result E A) → ((a : A) × (r ≡ ok a)) ⊎ ((e : E) × (r ≡ err e))
  Result-cases (ok a) = inl (a, refl)
  Result-cases (err e) = inr (e, refl)

  -- Inversion of a successful step.
  pub >>=-eq-ok {β} :
      {B : Type β} (step : Result E A) (rest : A → Result E B) {last : B}
      → (step >>= rest) ≡ ok last
      → (value : A) × (step ≡ ok value) × (rest value ≡ ok last)
  >>=-eq-ok (err thrown) rest done = cc
  >>=-eq-ok (ok value) rest done = (value, refl, done)

  pub ok-injective : (a b : A) → ◌≡◌ {A = Result E A} (ok a) (ok b) → a ≡ b
  ok-injective a b h = cc

  pub or_throw-eq-ok : (e : E) (o : Option A) {a : A} → or_throw e o ≡ ok a → o ≡ some a
  or_throw-eq-ok e none h = cc
  or_throw-eq-ok e (some b) h = cc
