-- ===== src/Action/Leaves.antt =====
-- What a call leaves in the state, whether it returns or raises.
use chatfolio_backend.Prelude.{◌≡◌, refl, Bool, true, false, Option, none, some}
use chatfolio_backend.Errors.{Error, Result, ok, err}
use chatfolio_backend.Action.{Action, proceed, raise_if, or_raise}

-- What a call leaves behind has the property.
abbrev pub Leaves {ℓ} : {S : Type 0} (P : S → Type 0) {A : Type ℓ} → Result A × S → Type 0
Leaves P (r, s) = P s

module _ {S : Type 0} (P : S → Type 0) where
  module _ {ℓ κ} {A : Type ℓ} {B : Type κ} where
    pub calls :
        (m : Result A × S) (f : A → Action S B)
        → Leaves P m
        → ((a : A) (t : S) → P t → Leaves P (f a t))
        → Leaves P (proceed m f)
    calls (ok a, s) f p g = g a s p
    calls (err e, s) f p g = p

    pub finds :
        (o : Option A) (e : Error) (s : S) (f : A → Action S B)
        → P s
        → ((a : A) → o ≡ some a → Leaves P (f a s))
        → Leaves P (proceed (or_raise e o s) f)
    finds none e s f p g = p
    finds (some a) e s f p g = g a refl

  module _ {κ} {B : Type κ} where
    pub checks :
        (c : Bool) (e : Error) (s : S) (f : Unit {0} → Action S B)
        → P s
        → (c ≡ false → Leaves P (f tt s))
        → Leaves P (proceed (raise_if c e s) f)
    checks true e s f p g = p
    checks false e s f p g = g refl

-- A call with a stronger property, on which what follows relies.
pub calls-with {ℓ κ} :
    {S : Type 0} (P Q : S → Type 0) {A : Type ℓ} {B : Type κ} (m : Result A × S)
    (f : A → Action S B)
    → Leaves Q m
    → ((t : S) → Q t → P t)
    → ((a : A) (t : S) → Q t → Leaves P (f a t))
    → Leaves P (proceed m f)
calls-with P Q (ok a, s) f q w g = g a s q
calls-with P Q (err e, s) f q w g = w s q

-- What holds of the value and the state that a call returns, when it returns.
abbrev pub Returns {ℓ} : {S : Type 0} {A : Type ℓ} (P : A → S → Type 0) → Result A × S → Type 0
Returns P (ok a, s) = P a s
Returns P (err e, s) = Unit

module _ {ℓ κ} {S : Type 0} {A : Type ℓ} {B : Type κ} (P : B → S → Type 0) where
  pub Returns-finds :
      (o : Option A) (e : Error) (s : S) (f : A → Action S B)
      → ((a : A) → o ≡ some a → Returns P (f a s))
      → Returns P (proceed (or_raise e o s) f)
  Returns-finds none e s f g = tt
  Returns-finds (some a) e s f g = g a refl

module _ {κ} {S : Type 0} {B : Type κ} (P : B → S → Type 0) where
  pub Returns-checks :
      (c : Bool) (e : Error) (s : S) (f : Unit {0} → Action S B)
      → (c ≡ false → Returns P (f tt s))
      → Returns P (proceed (raise_if c e s) f)
  Returns-checks true e s f g = tt
  Returns-checks false e s f g = g refl
