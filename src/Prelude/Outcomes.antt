-- ===== src/Prelude/Outcomes.antt =====
-- A Python call that may raise: the value it returns, or the exception as a value.
use mathlib.Core.Path.{◌≡◌, refl}

pub data Outcome {ℓ} (E : Type ℓ) (A : Type ℓ) : Type ℓ where
  ok : A → Outcome E A
  raised : E → Outcome E A

module _ {ℓ} {E A B : Type ℓ} where
  infixl 5 ◌>>=◌
  abbrev pub ◌>>=◌ : Outcome E A → (A → Outcome E B) → Outcome E B
  ok a >>= f = f a
  raised e >>= f = raised e

  pub bind-eq-ok :
      (m : Outcome E A) (f : A → Outcome E B) {b : B}
      → (m >>= f) ≡ ok b
      → (a : A) × (m ≡ ok a) × (f a ≡ ok b)
  bind-eq-ok (ok a) f h = (a, refl, h)
  bind-eq-ok (raised e) f h = cc
