-- ===== src/Prelude/Outcome.antt =====
-- What every result of a chain of steps that may fail has.
use mathlib.Core.Path.{◌≡◌, refl}
use mathlib.Core.Bool.{Bool, true, false}
use mathlib.Core.Option.{Option, none, some}
use native.Mathlib.Omega.{arith}
use emme.Prelude.Tests.{◌>>=◌, if◌then◌else◌}

-- A predicate on the result, where there is one.
pub data Always {ℓ κ} {A : Type ℓ} (P : A → Type κ) : Option A → Type (ℓ ⊔ κ) where
  no_result : Always P none
  result : (a : A) → P a → Always P (some a)

module _ {ℓ κ} {A : Type ℓ} {P : A → Type κ} where
  pub Always-intro : (o : Option A) → ((a : A) → o ≡ some a → P a) → Always P o
  Always-intro none h = no_result
  Always-intro (some a) h = result a (h a refl)

  pub Always-elim : (o : Option A) (a : A) → Always P o → o ≡ some a → P a
  Always-elim _ a no_result e = absurd (ground arith)
  Always-elim _ a (result b h) e = ground (arith, h, e)

  pub Always-if :
      (b : Bool) (o : Option A) → (b ≡ true → Always P o) → Always P (if b then o else none)
  Always-if true o h = h refl
  Always-if false o h = no_result

  pub Always-unless :
      (b : Bool) (o : Option A) → (b ≡ false → Always P o) → Always P (if b then none else o)
  Always-unless true o h = no_result
  Always-unless false o h = h refl

pub Always-bind {ℓ κ μ} :
    {A B : Type ℓ} {P : A → Type κ} {Q : B → Type μ} (o : Option A) (f : A → Option B)
    → Always P o
    → ((a : A) → P a → Always Q (f a))
    → Always Q (o >>= f)
Always-bind _ f no_result g = no_result
Always-bind _ f (result a h) g = g a h
