-- ===== src/Prelude/Keeps.antt =====
-- Invariants of actions: one rule for each way to put an action together.
use mathlib.Core.Bool.{Bool, true, false}
use mathlib.Core.Option.{Option, none, some}
use slurpee.Prelude.Tests.{if◌then◌else◌}
use slurpee.Prelude.Action.{
  Action, pure, ◌>>=◌, gets, Result, ok, err, DbError, on_result, on_option,
}

-- Where `P` holds before `m`, it holds after.
pub record Keeps {S A : Type 0} (P : S → Type 0) (m : Action S A) : Type 0 where
  pub at : (s : S) → P s → P (m s).1

module _ {S A : Type 0} {P : S → Type 0} where
  pub Keeps-pure : (a : A) → Keeps P (pure {S = S} a)
  Keeps-pure a = record { at = λ s h. h }

  pub Keeps-gets : (f : S → A) → Keeps P (gets f)
  Keeps-gets f = record { at = λ s h. h }

  pub Keeps-if :
      (b : Bool) (m n : Action S A) → Keeps P m → Keeps P n → Keeps P (if b then m else n)
  Keeps-if true m n km kn = km
  Keeps-if false m n km kn = kn

module _ {S A B : Type 0} {P : S → Type 0} where
  pub Keeps-bind :
      (m : Action S A) (f : A → Action S B)
      → Keeps P m
      → ((a : A) → Keeps P (f a))
      → Keeps P (m >>= f)
  Keeps-bind m f km kf = record { at = λ s h. (kf (m s).0).at (m s).1 (km.at s h) }

  pub Keeps-on_result :
      (r : Result A) (f : DbError → Action S B) (g : A → Action S B)
      → ((e : DbError) → Keeps P (f e))
      → ((a : A) → Keeps P (g a))
      → Keeps P (on_result r f g)
  Keeps-on_result (ok a) f g kf kg = kg a
  Keeps-on_result (err e) f g kf kg = kf e

  pub Keeps-on_option :
      (o : Option A) (m : Action S B) (g : A → Action S B)
      → Keeps P m
      → ((a : A) → Keeps P (g a))
      → Keeps P (on_option o m g)
  Keeps-on_option none m g km kg = km
  Keeps-on_option (some a) m g km kg = kg a
