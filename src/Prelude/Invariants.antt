-- ===== src/Prelude/Invariants.antt =====
-- Properties of an object that a method keeps, whether it returns an error or not, with a rule for
-- each way to build a method.
use mathlib.Core.Path.{◌≡◌, refl}
use mathlib.Core.List.{List, [], ◌∷◌}
use mathlib.Core.Bool.{Bool, true, false}
use mathlib.Core.Option.{Option, none, some}
use aureum.Prelude.Results

module _ {ℓ κ μ} {S : Type ℓ} {E : Type κ} (P : S → Type μ) where
  abbrev pub Maintains : Results.Method S E → Type (ℓ ⊔ μ)
  Maintains m = (s : S) → P s → P (m s).0

  pub fail_if-Maintains : (b : Bool) (e : E) → Maintains (Results.fail_if b e)
  fail_if-Maintains true e s h = h
  fail_if-Maintains false e s h = h

  -- Each statement of a body keeps the property.
  abbrev pub MaintainsAll : List (Results.Method S E) → Type (ℓ ⊔ μ)
  MaintainsAll [] = Unit
  MaintainsAll (m ∷ ms) = Maintains m × MaintainsAll ms

  pub statements-Maintains :
      (ms : List (Results.Method S E)) → MaintainsAll ms → Maintains (Results.statements ms)
  statements-Maintains [] h s p = p
  statements-Maintains (m ∷ ms) h s p = go (m s) (h.0 s p) (statements-Maintains ms h.1)
    where
      go :
          (r : S × Option E)
          → P r.0
          → Maintains (Results.statements ms)
          → P
              (let next : S × Option E = elim r.1 [
                | none ↦ Results.statements ms r.0
                | some e ↦ (r.0, some e)
              ] in
                next).0
      go (t, none) q k = k t q
      go (t, some e) q k = q

  pub when_some-Maintains {ν} :
      {A : Type ν} (o : Option A) (f : A → Results.Method S E)
      → ((a : A) → o ≡ some a → Maintains (f a))
      → Maintains (Results.when_some o f)
  when_some-Maintains none f h s p = p
  when_some-Maintains (some a) f h s p = h a refl s p
