-- ===== src/Prelude/Results.antt =====
-- Go's error results. A function `(T, error)` returns a `Result`; a method on a pointer that
-- returns `error` takes the object and returns it as it stands afterwards, also beside an error.
use mathlib.Core.Path.{◌≡◌, refl}
use mathlib.Core.Logic.{◌⊎◌, inl, inr}
use mathlib.Core.Bool.{Bool, true, false}
use mathlib.Core.List.{List, [], ◌∷◌}
use aureum.Prelude.Tests.{if◌then◌else◌}
use mathlib.Core.Option.{Option, none, some}

pub data Result {ℓ κ} (E : Type ℓ) (A : Type κ) : Type (ℓ ⊔ κ) where
  ok : A → Result E A
  err : E → Result E A

abbrev pub Method {ℓ κ} : Type ℓ → Type κ → Type (ℓ ⊔ κ)
Method S E = S → S × Option E

module _ {ℓ κ} {S : Type ℓ} {E : Type κ} where
  -- A statement that cannot fail.
  abbrev pub modify : (S → S) → Method S E
  modify f s = (f s, none)

  -- `if c { return e }`
  abbrev pub fail_if : Bool → E → Method S E
  fail_if true e s = (s, some e)
  fail_if false e s = (s, none)

  infixl 5 ◌>>◌
  abbrev pub ◌>>◌ : Method S E → Method S E → Method S E
  ◌>>◌ m k s = elim ((m s).1) [ none ↦ k (m s).0 | some e ↦ ((m s).0, some e) ]

  -- `if p != nil { f(*p) }`
  abbrev pub when_some {μ} : {A : Type μ} → Option A → (A → Method S E) → Method S E
  when_some none f s = (s, none)
  when_some (some a) f s = f a s

  -- The statements of a body in turn, up to the first that returns an error.
  abbrev pub statements : List (Method S E) → Method S E
  statements [] s = (s, none)
  statements (m ∷ ms) s = elim ((m s).1) [
    | none ↦ statements ms (m s).0
    | some e ↦ ((m s).0, some e)
  ]

-- `if c { return nil, e }` for each pair in turn, and then the result.
abbrev pub guards {ℓ κ} : {E : Type ℓ} {A : Type κ} → List (Bool × E) → Result E A → Result E A
guards [] r = r
guards ((c, e) ∷ gs) r = if c then err e else guards gs r

-- No guard returns.
abbrev pub Pass {ℓ} : {E : Type ℓ} → List (Bool × E) → Type 0
Pass [] = Unit
Pass ((c, e) ∷ gs) = (c ≡ false) × Pass gs

-- A result comes only past all guards.
pub guards-ok {ℓ κ} :
    {E : Type ℓ} {A : Type κ} (gs : List (Bool × E)) (r : Result E A) {a : A}
    → guards gs r ≡ ok a
    → Pass gs × (r ≡ ok a)
guards-ok [] r h = (tt, h)
guards-ok ((true, e) ∷ gs) r h = cc
guards-ok ((false, e) ∷ gs) r h = let (p, q) = guards-ok gs r h in ((refl, p), q)

pub guards-Pass {ℓ κ} :
    {E : Type ℓ} {A : Type κ} (gs : List (Bool × E)) (r : Result E A) → Pass gs → guards gs r ≡ r
guards-Pass [] r p = refl
guards-Pass ((true, e) ∷ gs) r p = cc p.0
guards-Pass ((false, e) ∷ gs) r p = guards-Pass gs r p.1

pub Result-cases {ℓ κ} :
    {E : Type ℓ} {A : Type κ} (r : Result E A) → ((a : A) × (r ≡ ok a)) ⊎ ((e : E) × (r ≡ err e))
Result-cases (ok a) = inl (a, refl)
Result-cases (err e) = inr (e, refl)
