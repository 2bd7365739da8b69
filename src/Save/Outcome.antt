-- ===== src/Save/Outcome.antt =====
-- How a call of `save_if_interesting` or of a part of it ends, as a predicate: it returns something
-- with a property, or ends the process, and does not run out of fuel.
use ctfuzz.Base.{◌≡◌, refl, ◌≢◌, Option, none, some, Bool, true, false, if◌then◌else◌}
use ctfuzz.State.{
  Result, ok, stop, cannot_execute, cannot_create, too_long, out_of_bounds, out_of_fuel, ◌>>=◌,
  in_bounds,
}

abbrev pub Ends : {A : Type 0} → (A → Type 0) → Result A → Type 0
Ends P (ok a) = P a
Ends P (stop out_of_fuel) = ⊥
Ends P (stop cannot_execute) = Unit
Ends P (stop cannot_create) = Unit
Ends P (stop too_long) = Unit
Ends P (stop out_of_bounds) = Unit

abbrev pub Any : {A : Type 0} → A → Type 0
Any a = Unit

module _ {A : Type 0} where
  module _ {B : Type 0} (P : A → Type 0) (Q : B → Type 0) where
    pub Ends-bind :
        (r : Result A) (f : A → Result B)
        → Ends P r
        → ((a : A) → P a → Ends Q (f a))
        → Ends Q (r >>= f)
    Ends-bind (ok a) f p h = h a p
    Ends-bind (stop out_of_fuel) f p h = p
    Ends-bind (stop cannot_execute) f p h = tt
    Ends-bind (stop cannot_create) f p h = tt
    Ends-bind (stop too_long) f p h = tt
    Ends-bind (stop out_of_bounds) f p h = tt

  module _ (P : A → Type 0) where
    pub Ends-map : (Q : A → Type 0) (r : Result A) → Ends P r → ((a : A) → P a → Q a) → Ends Q r
    Ends-map Q (ok a) p h = h a p
    Ends-map Q (stop out_of_fuel) p h = p
    Ends-map Q (stop cannot_execute) p h = tt
    Ends-map Q (stop cannot_create) p h = tt
    Ends-map Q (stop too_long) p h = tt
    Ends-map Q (stop out_of_bounds) p h = tt

    pub Ends-in_bounds : (o : Option A) → ((a : A) → P a) → Ends P (in_bounds o)
    Ends-in_bounds (some a) h = h a
    Ends-in_bounds none h = tt

    pub Ends-if :
        (b : Bool) (x y : Result A)
        → (b ≡ true → Ends P x)
        → (b ≡ false → Ends P y)
        → Ends P (if b then x else y)
    Ends-if true x y hx hy = hx refl
    Ends-if false x y hx hy = hy refl

    pub Ends-fuel : (r : Result A) → Ends P r → r ≢ stop out_of_fuel
    Ends-fuel (ok a) p = λ e. cc
    Ends-fuel (stop cannot_execute) p = λ e. cc
    Ends-fuel (stop cannot_create) p = λ e. cc
    Ends-fuel (stop too_long) p = λ e. cc
    Ends-fuel (stop out_of_bounds) p = λ e. cc
    Ends-fuel (stop out_of_fuel) p = λ e. p

-- What holds of the result if there is one.
abbrev pub Yields : {A : Type 0} → (A → Type 0) → Result A → Type 0
Yields P (ok a) = P a
Yields P (stop e) = Unit

module _ {A : Type 0} (P : A → Type 0) where
  pub Yields-bind :
      {B : Type 0} (Q : B → Type 0) (r : Result A) (f : A → Result B)
      → Yields P r
      → ((a : A) → P a → Yields Q (f a))
      → Yields Q (r >>= f)
  Yields-bind Q (ok a) f p h = h a p
  Yields-bind Q (stop e) f p h = tt

  pub Yields-map : (Q : A → Type 0) (r : Result A) → Yields P r → ((a : A) → P a → Q a) → Yields Q r
  Yields-map Q (ok a) p h = h a p
  Yields-map Q (stop e) p h = tt

  pub Yields-if :
      (b : Bool) (x y : Result A)
      → (b ≡ true → Yields P x)
      → (b ≡ false → Yields P y)
      → Yields P (if b then x else y)
  Yields-if true x y hx hy = hx refl
  Yields-if false x y hx hy = hy refl

  pub Yields-Ends : (r : Result A) → Ends P r → Yields P r
  Yields-Ends (ok a) p = p
  Yields-Ends (stop e) p = tt

  -- Where the fuel does not run out, the call ends so.
  pub Ends-Yields : (r : Result A) → r ≢ stop out_of_fuel → Yields P r → Ends P r
  Ends-Yields (ok a) h p = p
  Ends-Yields (stop cannot_execute) h p = tt
  Ends-Yields (stop cannot_create) h p = tt
  Ends-Yields (stop too_long) h p = tt
  Ends-Yields (stop out_of_bounds) h p = tt
  Ends-Yields (stop out_of_fuel) h p = h refl
