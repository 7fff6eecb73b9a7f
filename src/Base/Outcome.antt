-- ===== src/Base/Outcome.antt =====
-- The outcome of code that may stop with a panic. `out_of_fuel` has no counterpart in the program:
-- a loop that recurs on fuel gives it when the fuel does not suffice.
use mathlib.Core.Bool.{Bool, true, false}
use mathlib.Core.Path.{◌≡◌, refl, subst}
use pipetest.Base.Tests.{if◌then◌else◌}

pub data Outcome {ℓ} (A : Type ℓ) : Type ℓ where
  ok : A → Outcome A
  panic out_of_fuel : Outcome A

module _ {ℓ κ} {A : Type ℓ} {B : Type κ} where
  infixl 5 ◌>>=◌
  abbrev pub ◌>>=◌ : Outcome A → (A → Outcome B) → Outcome B
  ok a >>= f = f a
  panic >>= f = panic
  out_of_fuel >>= f = out_of_fuel

-- The run ends with a value, of which `P` holds.
pub data Returns {ℓ κ} {A : Type ℓ} (P : A → Type κ) : Outcome A → Type (ℓ ⊔ κ) where
  returns : {a : A} → P a → Returns P (ok a)

module _ {ℓ κ} {A : Type ℓ} {P : A → Type κ} where
  pub Returns-ok : {m : Outcome A} {a : A} → Returns P m → m ≡ ok a → P a
  Returns-ok (returns h) e = subst P (cc) h

  pub Returns-value : {m : Outcome A} → Returns P m → (a : A) × (m ≡ ok a) × P a
  Returns-value (returns {a} h) = (a, refl, h)

  pub Returns-bind {ℓ' κ'} :
      {B : Type ℓ'} {Q : B → Type κ'} {m : Outcome A} (f : A → Outcome B)
      → Returns P m
      → ((a : A) → P a → Returns Q (f a))
      → Returns Q (m >>= f)
  Returns-bind f (returns {a} h) k = k a h

  pub if-Returns :
      (c : Bool) {m n : Outcome A}
      → (c ≡ true → Returns P m)
      → (c ≡ false → Returns P n)
      → Returns P (if c then m else n)
  if-Returns true h k = h refl
  if-Returns false h k = k refl

  pub Returns-map {κ'} :
      {Q : A → Type κ'} {m : Outcome A} → Returns P m → ((a : A) → P a → Q a) → Returns Q m
  Returns-map (returns {a} h) k = returns (k a h)
