-- ===== src/Prelude/Lists.antt =====
-- Lists over the native numbers, predicates on their members, and Boolean list functions.
use Prim.Native.Nat.{ℕ, suc, ◌+◌}
use mathlib.Core.Path.{◌≡◌, refl}
use mathlib.Core.Logic.{◌⊎◌}
use mathlib.Core.Bool.{not, Bool, true, false, ◌||◌}
use mathlib.Core.Option.{Option, none, some}
use mathlib.Core.List.{List, [], ◌∷◌, ◌++◌}
use native.Mathlib.Omega.{arith}
use slurpee.Prelude.Tests.{if◌then◌else◌}

module _ {ℓ} {A : Type ℓ} where
  abbrev pub length : List A → ℕ
  length [] = 0
  length (x ∷ xs) = suc (length xs)

  abbrev pub is_empty : List A → Bool
  is_empty [] = true
  is_empty (x ∷ xs) = false

  pub length-append : (xs ys : List A) → length (xs ++ ys) ≡ length xs + length ys
  length-append [] ys = omega arith
  length-append (x ∷ xs) ys = omega (arith, length-append xs ys)

  -- The elements that pass a Boolean test, in order.
  unfoldable pub keep_if : (A → Bool) → List A → List A
  keep_if test [] = []
  keep_if test (x ∷ xs) = let rest = keep_if test xs in if test x then x ∷ rest else rest

  -- `P` of every element.
  abbrev pub All {κ} : (A → Type κ) → List A → Type κ
  All P [] = Unit
  All P (x ∷ xs) = P x × All P xs

-- A member, with its place.
abbrev pub Member : {A : Type 0} → A → List A → Type 0
Member a [] = ⊥
Member a (x ∷ xs) = (a ≡ x) ⊎ Member a xs

module _ {A : Type 0} where
  unfoldable pub find : (A → Bool) → List A → Option A
  find test [] = none
  find test (x ∷ xs) = if test x then some x else find test xs

  unfoldable pub contains_if : (A → Bool) → List A → Bool
  contains_if test [] = false
  contains_if test (x ∷ xs) = test x || contains_if test xs

  -- Every element that passes the test, changed in its place.
  unfoldable pub update_if : (A → Bool) → (A → A) → List A → List A
  update_if test f [] = []
  update_if test f (x ∷ xs) = (if test x then f x else x) ∷ update_if test f xs

  -- What was thrown out is not found.
  pub find-keep_if-not :
      (test : A → Bool) (xs : List A) → find test (keep_if (λ x. not (test x)) xs) ≡ none
  unfolding find keep_if
  find-keep_if-not test [] = refl
  find-keep_if-not test (x ∷ xs) = ground (arith, find-keep_if-not test xs)

  -- What no row passes is found when it is appended.
  pub find-append :
      (test : A → Bool) (x : A) (xs : List A)
      → contains_if test xs ≡ false
      → test x ≡ true
      → find test (xs ++ x ∷ []) ≡ some x
  unfolding find contains_if
  find-append test x [] h new = ground arith
  find-append test x (y ∷ ys) h new = ground (arith, find-append test x ys)
