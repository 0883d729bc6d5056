-- ===== src/Base/Postcondition.antt =====
-- Postconditions on outcomes that also say that the fuel was enough.
use mathlib.Core.Path.{◌≡◌, refl, subst}
use mathlib.Core.Logic.{◌≢◌}
use mathlib.Core.Bool.{Bool, true, false}
use mathlib.Core.Option.{Option, none, some}
use apple_platform_rs.Base.Tests.{if◌then◌else◌}
use apple_platform_rs.Base.Fallible.{Outcome, ok, err, panic, stuck, ◌>>=◌, ok_or}

-- The run ends, and `P` holds of its value if it has one.
pub data Ends {ℓ κ} {E : Type 0} {A : Type ℓ} (P : A → Type κ) : Outcome E A → Type (ℓ ⊔ κ) where
  value : {a : A} → P a → Ends P (ok a)
  error : {e : E} → Ends P (err e)
  abort : Ends P panic

module _ {ℓ κ} {E : Type 0} {A : Type ℓ} {P : A → Type κ} where
  pub Ends-ok : {r : Outcome E A} {a : A} → Ends P r → r ≡ ok a → P a
  Ends-ok (value h) e = subst P (cc) h
  Ends-ok error e = cc
  Ends-ok abort e = cc

  pub Ends-ne-stuck : {r : Outcome E A} → Ends P r → r ≢ stuck
  Ends-ne-stuck (value h) = cc
  Ends-ne-stuck error = cc
  Ends-ne-stuck abort = cc

  pub Ends-bind {ℓ' κ'} :
      {B : Type ℓ'} {Q : B → Type κ'} {r : Outcome E A} {f : A → Outcome E B}
      → Ends P r
      → ((a : A) → P a → Ends Q (f a))
      → Ends Q (r >>= f)
  Ends-bind (value {a} h) k = k a h
  Ends-bind error k = error
  Ends-bind abort k = abort

  pub Ends-map {κ'} :
      {Q : A → Type κ'} {r : Outcome E A} → Ends P r → ((a : A) → P a → Q a) → Ends Q r
  Ends-map (value {a} h) k = value (k a h)
  Ends-map error k = error
  Ends-map abort k = abort

  pub Ends-ok_or : (o : Option A) (e : E) → ((a : A) → o ≡ some a → P a) → Ends P (ok_or o e)
  Ends-ok_or (some a) e h = value (h a refl)
  Ends-ok_or none e h = error

  pub Ends-if : (b : Bool) {x y : Outcome E A} → Ends P x → Ends P y → Ends P (if b then x else y)
  Ends-if true hx hy = hx
  Ends-if false hx hy = hy

  pub Ends-of_ok : (r : Outcome E A) → r ≢ stuck → ((a : A) → r ≡ ok a → P a) → Ends P r
  Ends-of_ok (ok a) s h = value (h a refl)
  Ends-of_ok (err e) s h = error
  Ends-of_ok panic s h = abort
  Ends-of_ok stuck s h = absurd (s refl)
