-- ===== src/Base/Outcome.antt =====
-- Results of code that may fail with an error of type `E`.
use mathlib.Core.Path.{◌≡◌, refl}
use mathlib.Core.Bool.{Bool, true, false}

pub data Result {ℓ κ} (E : Type ℓ) (A : Type κ) : Type (ℓ ⊔ κ) where
  ok : A → Result E A
  err : E → Result E A

module _ {ℓ κ} {E : Type ℓ} where
  infixl 5 ◌>>=◌ ◌>>◌
  abbrev pub ◌>>=◌ {μ} : {A : Type κ} {B : Type μ} → Result E A → (A → Result E B) → Result E B
  err e >>= next = err e
  ok v >>= next = next v

  abbrev pub ◌>>◌ : {B : Type κ} → Result E (Unit {0}) → Result E B → Result E B
  ok done >> rest = rest
  err e >> rest = err e

-- `if failed { return err }`
abbrev pub refuse {ℓ} : {E : Type ℓ} → Bool → E → Result E (Unit {0})
refuse true e = err e
refuse false e = ok tt

-- A chain that returned a value has returned from each of its steps.
module _ {ℓ κ} {E : Type ℓ} {B : Type κ} {v : B} where
  pub >>-eq-ok :
      (first : Result E (Unit {0})) (rest : Result E B)
      → (first >> rest) ≡ ok v
      → (first ≡ ok tt) × (rest ≡ ok v)
  >>-eq-ok (err e) rest returned = cc
  >>-eq-ok (ok tt) rest returned = (refl, returned)

  pub >>=-eq-ok {μ} :
      {A : Type μ} (first : Result E A) (next : A → Result E B)
      → (first >>= next) ≡ ok v
      → (x : A) × (first ≡ ok x) × (next x ≡ ok v)
  >>=-eq-ok (err e) next returned = cc
  >>=-eq-ok (ok x) next returned = (x, refl, returned)
