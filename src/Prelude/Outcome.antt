-- ===== src/Prelude/Outcome.antt =====
-- What a Go call may do: return a value, or panic (a nil dereference, a failed assertion).
use mathlib.Core.Path.{◌≡◌, refl, subst}

pub data Outcome {ℓ} (A : Type ℓ) : Type ℓ where
  returned : A → Outcome A
  panicked : Outcome A

infixl 10 ◌>>=◌
abbrev pub ◌>>=◌ {ℓ κ} : {A : Type ℓ} {B : Type κ} → Outcome A → (A → Outcome B) → Outcome B
returned a >>= f = f a
panicked >>= f = panicked

-- The call returns, with a value that satisfies the predicate.
pub data Returns {ℓ κ} {A : Type ℓ} (P : A → Type κ) : Outcome A → Type (ℓ ⊔ κ) where
  returns : (a : A) → P a → Returns P (returned a)

module _ {ℓ κ μ} {A : Type ℓ} {B : Type κ} where
  pub Returns-bind {ν} :
      (P : A → Type μ) (Q : B → Type ν) {m : Outcome A} (f : A → Outcome B)
      → Returns P m
      → ((a : A) → P a → Returns Q (f a))
      → Returns Q (m >>= f)
  Returns-bind P Q f (returns a p) k = k a p

pub Returns-imp {ℓ κ μ} :
    {A : Type ℓ} (P : A → Type κ) (Q : A → Type μ) {m : Outcome A}
    → ((a : A) → P a → Q a)
    → Returns P m
    → Returns Q m
Returns-imp P Q f (returns a p) = returns a (f a p)

-- What a call that returns gives back.
pub Returns-value {ℓ κ} :
    {A : Type ℓ} (P : A → Type κ) {m : Outcome A} → Returns P m → (a : A) × (m ≡ returned a) × P a
Returns-value P (returns a p) = (a, refl, p)

-- Inversion of a call that returns.
pub >>=-returned {ℓ κ} :
    {A : Type ℓ} {B : Type κ} (m : Outcome A) (f : A → Outcome B) {b : B}
    → (m >>= f) ≡ returned b
    → (a : A) × (m ≡ returned a) × (f a ≡ returned b)
>>=-returned (returned a) f h = (a, refl, h)
>>=-returned panicked f h = cc

pub returned_inj {ℓ} : {A : Type ℓ} (a b : A) → returned a ≡ returned b → a ≡ b
returned_inj a b h = cc

pub Returns-at {ℓ κ} :
    {A : Type ℓ} (P : A → Type κ) {m : Outcome A} (b : A) → Returns P m → m ≡ returned b → P b
Returns-at P b (returns a p) e = subst P (returned_inj a b e) p
