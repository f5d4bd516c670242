-- ===== src/Common/Results.antt =====
-- Go's `(value, error)` results: a value or the error.
use mathlib.Core.Path.{◌≡◌, refl}
use mathlib.Core.Logic.{◌⊎◌, inl, inr}

infixl 5 ◌>>=◌
pub data Result {ℓ κ} (E : Type κ) (A : Type ℓ) : Type (ℓ ⊔ κ) where
  err : E → Result E A
  ok : A → Result E A

abbrev pub ◌>>=◌ {ℓ κ μ} :
    {A : Type ℓ} {B : Type κ} {E : Type μ} → Result E A → (A → Result E B) → Result E B
err fault >>= next = err fault
ok value >>= next = next value

-- A bind that succeeds has a first step that succeeds.
pub >>=-eq-ok {ℓ κ μ} :
    {A : Type ℓ} {B : Type κ} {E : Type μ} {b : B} (m : Result E A) (next : A → Result E B)
    → (m >>= next) ≡ ok b
    → (value : A) × (m ≡ ok value) × (next value ≡ ok b)
>>=-eq-ok (err fault) next bound = cc
>>=-eq-ok (ok value) next bound = (value, refl, bound)

pub Result-cases {ℓ κ} :
    {A : Type ℓ} {E : Type κ} (r : Result E A)
    → ((value : A) × (r ≡ ok value)) ⊎ ((fault : E) × (r ≡ err fault))
Result-cases (ok value) = inl (value, refl)
Result-cases (err fault) = inr (fault, refl)
