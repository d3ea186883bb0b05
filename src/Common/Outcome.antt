-- ===== src/Common/Outcome.antt =====
-- What a call comes to: its value, an error of the program, a failed BUG_ON, or a round more than the
-- model's fuel; and statements about it.
use mathlib.Core.Path.{◌≡◌, refl, subst}
use mathlib.Core.Logic.{◌≢◌}
use mathlib.Core.Bool.{Bool, true, false}
use graceful_music.Common.Tests.{if◌then◌else◌}

pub data Result {ℓ κ} (E : Type κ) (A : Type ℓ) : Type (ℓ ⊔ κ) where
  ok : A → Result E A
  failed : E → Result E A
  bug out_of_fuel : Result E A

module _ {ℓ κ μ} {E : Type κ} {A : Type ℓ} {B : Type μ} where
  abbrev pub bind : Result E A → (A → Result E B) → Result E B
  bind (ok a) f = f a
  bind (failed e) f = failed e
  bind bug f = bug
  bind out_of_fuel f = out_of_fuel

-- The call comes to a value with `P`, or to an error: to no bug, and the fuel is enough.
pub data Yields {ℓ κ μ} {E : Type κ} {A : Type ℓ} (P : A → Type μ)
    : Result E A → Type (ℓ ⊔ κ ⊔ μ) where
  yields : {a : A} → P a → Yields P (ok a)
  fails : {e : E} → Yields P (failed e)

module _ {ℓ κ μ} {E : Type κ} {A : Type ℓ} {P : A → Type μ} where
  pub Yields-ok : {r : Result E A} {a : A} → Yields P r → r ≡ ok a → P a
  Yields-ok (yields h) e = subst P (cc) h
  Yields-ok fails e = cc

  pub Yields-bug : {r : Result E A} → Yields P r → r ≢ bug
  Yields-bug (yields h) = cc
  Yields-bug fails = cc

  pub Yields-out_of_fuel : {r : Result E A} → Yields P r → r ≢ out_of_fuel
  Yields-out_of_fuel (yields h) = cc
  Yields-out_of_fuel fails = cc

  pub Yields-if :
      (t : Bool) {x y : Result E A}
      → (t ≡ true → Yields P x)
      → (t ≡ false → Yields P y)
      → Yields P (if t then x else y)
  Yields-if true f g = f refl
  Yields-if false f g = g refl

  pub Yields-bind {ℓ' μ'} :
      {B : Type ℓ'} {Q : B → Type μ'} {r : Result E A} {f : A → Result E B}
      → Yields P r
      → ((a : A) → P a → Yields Q (f a))
      → Yields Q (bind r f)
  Yields-bind (yields {a} h) k = k a h
  Yields-bind fails k = fails

pub Yields-map {ℓ κ μ ν} :
    {E : Type κ} {A : Type ℓ} {P : A → Type μ} {Q : A → Type ν} {r : Result E A}
    → ((a : A) → P a → Q a)
    → Yields P r
    → Yields Q r
Yields-map f (yields {a} h) = yields (f a h)
Yields-map f fails = fails
