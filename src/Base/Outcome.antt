-- ===== src/Base/Outcome.antt =====
-- JavaScript exceptions as values.
use mathlib.Core.Path.{◌≡◌, refl, ap, subst}
use mathlib.Core.Logic.{◌⊎◌, inl, inr}

-- A JavaScript function that may throw: its value, or the error that it throws.
pub data Result {ℓ κ} (E : Type κ) (A : Type ℓ) : Type (ℓ ⊔ κ) where
  ok : A → Result E A
  err : E → Result E A

infixl 5 ◌>>=◌ ◌>>◌
abbrev pub ◌>>=◌ {ℓ κ ι} :
    {E : Type κ} {A : Type ℓ} {B : Type ι} → Result E A → (A → Result E B) → Result E B
ok a >>= f = f a
err e >>= f = err e

abbrev pub ◌>>◌ {ℓ κ} : {E : Type κ} {B : Type ℓ} → Result E (Unit {0}) → Result E B → Result E B
m >> k = m >>= λ _. k

-- What holds of the value, if there is one.
abbrev pub Ensures {ℓ κ} : {E : Type κ} {A : Type ℓ} → (A → Type 0) → Result E A → Type 0
Ensures P (ok a) = P a
Ensures P (err e) = Unit

module _ {ℓ κ} {E : Type κ} {A : Type ℓ} where
  value_of : A → Result E A → A
  value_of a (ok b) = b
  value_of a (err e) = a

  pub ok_injective : {a b : A} → ◌≡◌ {A = Result E A} (ok a) (ok b) → a ≡ b
  unfolding value_of
  ok_injective {a} h = ap (value_of a) h

  pub ensured : (P : A → Type 0) (r : Result E A) {a : A} → Ensures P r → r ≡ ok a → P a
  ensured P (ok b) p h = subst P (ok_injective h) p
  ensured P (err e) p h = absurd (cc)

  pub Ensures-then :
      (P : A → Type 0) (m : Result E (Unit {0})) (k : Result E A) → Ensures P k → Ensures P (m >> k)
  Ensures-then P (ok _) k h = h
  Ensures-then P (err e) k h = tt

pub Result-cases {ℓ κ} :
    {E : Type κ} {A : Type ℓ} (r : Result E A) → ((e : E) × (r ≡ err e)) ⊎ ((a : A) × (r ≡ ok a))
Result-cases (ok a) = inr (a, refl)
Result-cases (err e) = inl (e, refl)
