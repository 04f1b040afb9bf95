-- ===== src/Base/Result.antt =====
-- What a Python function does: it returns a value or raises an exception.
use mathlib.Core.Path.{◌≡◌, refl}

pub data Result {ℓ} (E A : Type ℓ) : Type ℓ where
  raised : E → Result E A
  returned : A → Result E A

module _ {ℓ} {E A B : Type ℓ} where
  infixl 5 ◌>>=◌
  abbrev pub ◌>>=◌ : Result E A → (A → Result E B) → Result E B
  raised e >>= k = raised e
  returned a >>= k = k a

  -- a chain returns only if its first step has returned
  pub returned_bind :
      (first : Result E A) (k : A → Result E B) {b : B}
      → (first >>= k) ≡ returned b
      → (a : A) × (first ≡ returned a) × (k a ≡ returned b)
  returned_bind (raised e) k chain = cc
  returned_bind (returned a) k chain = (a, refl, chain)

pub returned_inj {ℓ} :
    {E A : Type ℓ} {a b : A} → ◌≡◌ {A = Result E A} (returned a) (returned b) → a ≡ b
returned_inj h = cc
