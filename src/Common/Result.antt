-- ===== src/Common/Result.antt =====
-- Fallible code: `Result<T, E>`.
use mathlib.Core.Logic.{◌⊎◌, inl, inr}
use mathlib.Core.Path.{◌≡◌, refl}
use mathlib.Core.Bool.{Bool, true, false}

pub data Result {ℓ} (E : Type 0) (A : Type ℓ) : Type ℓ where
  ok : A → Result E A
  err : E → Result E A

infixl 5 ◌>>=◌ ◌>>◌
abbrev pub ◌>>=◌ {ℓ κ} :
    {E : Type 0} {A : Type ℓ} {B : Type κ} → Result E A → (A → Result E B) → Result E B
ok a >>= f = f a
err e >>= f = err e

abbrev pub ◌>>◌ {ℓ} : {E : Type 0} {B : Type ℓ} → Result E (Unit {0}) → Result E B → Result E B
m >> k = m >>= λ _. k

-- `if !b { return Err(e) }`
abbrev pub guard : {E : Type 0} → Bool → E → Result E (Unit {0})
guard true e = ok tt
guard false e = err e

abbrev pub is_ok {ℓ} : {E : Type 0} {A : Type ℓ} → Result E A → Bool
is_ok (ok a) = true
is_ok (err e) = false

abbrev pub map_err {ℓ} : {E F : Type 0} {A : Type ℓ} → (E → F) → Result E A → Result F A
map_err f (ok a) = ok a
map_err f (err e) = err (f e)

pub Result-cases {ℓ} :
    {E : Type 0} {A : Type ℓ} (r : Result E A) → ((a : A) × (r ≡ ok a)) ⊎ ((e : E) × (r ≡ err e))
Result-cases (ok a) = inl (a, refl)
Result-cases (err e) = inr (e, refl)
