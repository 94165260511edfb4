-- ===== src/Prelude/Action.antt =====
-- Code that changes a state: each action returns the state that it leaves. What Go returns beside
-- an `error` is a `Result`, so that an error is a value and leaves the state as it then was.

use mathlib.Core.Option.{Option, none, some}

abbrev pub Action : Type 0 → Type 0 → Type 0
Action S A = S → A × S

module _ {S : Type 0} where
  abbrev pub pure : {A : Type 0} → A → Action S A
  pure a s = (a, s)

  infixl 5 ◌>>=◌ ◌>>◌
  abbrev pub ◌>>=◌ : {A B : Type 0} → Action S A → (A → Action S B) → Action S B
  ◌>>=◌ m f s = let (a, s') = m s in f a s'

  abbrev pub ◌>>◌ : {A B : Type 0} → Action S A → Action S B → Action S B
  m >> n = m >>= λ _. n

  abbrev pub gets : {A : Type 0} → (S → A) → Action S A
  gets f s = (f s, s)

  abbrev pub modify : (S → S) → Action S (Unit {0})
  modify f s = (tt, f s)

-- `pgx.ErrNoRows`, or any other error of the database.
pub data DbError : Type 0 where
  no_rows other : DbError

pub data Result (A : Type 0) : Type 0 where
  ok : A → Result A
  err : DbError → Result A

-- `if err != nil { ... }`, and what follows it.
abbrev pub on_result {ℓ} : {A : Type 0} {B : Type ℓ} → Result A → (DbError → B) → (A → B) → B
on_result (err e) failed done = failed e
on_result (ok a) failed done = done a

abbrev pub on_option {ℓ} : {A : Type 0} {B : Type ℓ} → Option A → B → (A → B) → B
on_option none missing present = missing
on_option (some a) missing present = present a
