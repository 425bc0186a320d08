-- ===== src/Prelude/Fallible.antt =====
-- A value or an error, the `(T, error)` of the source.
use mathlib.Core.Path.{◌≡◌, refl}
use mathlib.Core.Logic.{◌⊎◌, inl, inr}
use mathlib.Core.Bool.{Bool, true, false}

pub data Result {ℓ} (E A : Type ℓ) : Type ℓ where
  ok : A → Result E A
  err : E → Result E A

module _ {ℓ} {E : Type ℓ} where
  infixl 5 ◌>>=◌ ◌>>◌
  abbrev pub ◌>>=◌ : {A B : Type ℓ} → Result E A → (A → Result E B) → Result E B
  ok a >>= f = f a
  err e >>= f = err e

  abbrev pub ◌>>◌ : {B : Type ℓ} → Result E Unit → Result E B → Result E B
  m >> k = m >>= λ _. k

  -- `if refused { return err }`
  abbrev pub refuse : Bool → E → Result E Unit
  refuse true e = err e
  refuse false e = ok tt

  pub Result-cases :
      {A : Type ℓ} (r : Result E A) → ((e : E) × (r ≡ err e)) ⊎ ((a : A) × (r ≡ ok a))
  Result-cases (ok a) = inr (a, refl)
  Result-cases (err e) = inl (e, refl)

  -- What a successful chain did first.
  pub bind_ok :
      {A B : Type ℓ} (m : Result E A) (f : A → Result E B) {b : B}
      → (m >>= f) ≡ ok b
      → (a : A) × (m ≡ ok a) × (f a ≡ ok b)
  bind_ok (ok a) f h = (a, refl, h)
  bind_ok (err e) f h = cc

  pub refuse_ok :
      {B : Type ℓ} (b : Bool) (e : E) (k : Result E B) {r : B}
      → (refuse b e >> k) ≡ ok r
      → (b ≡ false) × (k ≡ ok r)
  refuse_ok true e k h = cc
  refuse_ok false e k h = (refl, h)
