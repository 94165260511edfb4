-- ===== src/Prelude/Sort.antt =====
-- Sorting by a Boolean order, and the part of a list that LIMIT and OFFSET name.
use Prim.Native.Nat.{ℕ, zero, suc, ◌+◌, ◌-◌}
use mathlib.Core.Path.{◌≡◌, refl, ap, ◌∙◌}
use mathlib.Core.Bool.{Bool, true, false}
use mathlib.Core.List.{List, [], ◌∷◌, ◌++◌}
use native.Mathlib.Omega.{arith}
use slurpee.Prelude.Tests.{if◌then◌else◌, leb}
use slurpee.Prelude.Lists.{length, All}

module _ {A : Type 0} where
  unfoldable pub take : ℕ → List A → List A
  take zero xs = []
  take (suc n) [] = []
  take (suc n) (x ∷ xs) = x ∷ take n xs

  unfoldable pub drop : ℕ → List A → List A
  drop zero xs = xs
  drop (suc n) [] = []
  drop (suc n) (x ∷ xs) = drop n xs

  unfoldable pub insert_sorted : (A → A → Bool) → A → List A → List A
  insert_sorted before a [] = a ∷ []
  insert_sorted before a (x ∷ xs) =
      let rest = insert_sorted before a xs in if before a x then a ∷ x ∷ xs else x ∷ rest

  -- ORDER BY: `before` is the order of the rows, and equals keep their places.
  unfoldable pub sort_by : (A → A → Bool) → List A → List A
  unfolding insert_sorted
  sort_by before [] = []
  sort_by before (x ∷ xs) = insert_sorted before x (sort_by before xs)

  length-insert_sorted :
      (before : A → A → Bool) (a : A) (xs : List A)
      → length (insert_sorted before a xs) ≡ suc (length xs)
  unfolding insert_sorted
  length-insert_sorted before a [] = refl
  length-insert_sorted before a (x ∷ xs) = ground (arith, length-insert_sorted before a xs)

  pub length-sort_by :
      (before : A → A → Bool) (xs : List A) → length (sort_by before xs) ≡ length xs
  unfolding sort_by
  length-sort_by before [] = refl
  length-sort_by before (x ∷ xs) =
      omega (arith, length-insert_sorted before x (sort_by before xs), length-sort_by before xs)

  pub length-take :
      (n : ℕ) (xs : List A) → length (take n xs) ≡ (if leb (length xs) n then length xs else n)
  unfolding take
  length-take zero [] = refl
  length-take zero (x ∷ xs) = ground arith
  length-take (suc n) [] = ground arith
  length-take (suc n) (x ∷ xs) = ground (arith, length-take n xs)

  pub length-drop : (n : ℕ) (xs : List A) → length (drop n xs) ≡ length xs - n
  unfolding drop
  length-drop zero xs = omega arith
  length-drop (suc n) [] = omega arith
  length-drop (suc n) (x ∷ xs) = omega (arith, length-drop n xs)

  pub take-drop : (n m : ℕ) (xs : List A) → take n xs ++ take m (drop n xs) ≡ take (n + m) xs
  unfolding take drop
  take-drop zero m xs = ap (λ k. take k xs) (unit m)
    where
      unit : (m : ℕ) → m ≡ 0 + m
      unit m = omega arith
  take-drop (suc n) m [] = nothing m ∙ ap (λ k. take k []) (shift n m)
    where
      nothing : (m : ℕ) → take m [] ≡ take (suc (n + m)) []
      nothing zero = refl
      nothing (suc m) = refl

      shift : (n m : ℕ) → suc (n + m) ≡ suc n + m
      shift n m = omega arith
  take-drop (suc n) m (x ∷ xs) =
      ap (λ l. x ∷ l) (take-drop n m xs) ∙ ap (λ k. take k (x ∷ xs)) (shift n m)
    where
      shift : (n m : ℕ) → suc (n + m) ≡ suc n + m
      shift n m = omega arith

  pub sort_by-All :
      (before : A → A → Bool) (P : A → Type 0) (xs : List A) → All P xs → All P (sort_by before xs)
  unfolding sort_by insert_sorted
  sort_by-All before P [] h = tt
  sort_by-All before P (x ∷ xs) (px, h) = inserted (sort_by before xs) (sort_by-All before P xs h)
    where
      inserted : (ys : List A) → All P ys → All P (insert_sorted before x ys)
      inserted [] h = (px, tt)
      inserted (y ∷ ys) (py, h) = by_test (before x y) (inserted ys h)
        where
          by_test :
              (b : Bool)
              → All P (insert_sorted before x ys)
              → All P (if b then x ∷ y ∷ ys else y ∷ insert_sorted before x ys)
          by_test true rest = (px, (py, h))
          by_test false rest = (py, rest)

  insert_sorted-Agree :
      (before after : A → A → Bool) (x : A) (ys : List A)
      → All (λ y. before x y ≡ after x y) ys
      → insert_sorted before x ys ≡ insert_sorted after x ys
  unfolding insert_sorted
  insert_sorted-Agree before after x [] h = refl
  insert_sorted-Agree before after x (y ∷ ys) (e, h) =
      rw (e, insert_sorted-Agree before after x ys h) refl

  -- Two orders that agree on each element and those behind it sort a list in the same way.
  abbrev pub Agree : (A → A → Bool) → (A → A → Bool) → List A → Type 0
  Agree before after [] = Unit
  Agree before after (x ∷ xs) = All (λ y. before x y ≡ after x y) xs × Agree before after xs

  pub sort_by-Agree :
      (before after : A → A → Bool) (xs : List A)
      → Agree before after xs
      → sort_by before xs ≡ sort_by after xs
  unfolding sort_by
  sort_by-Agree before after [] h = refl
  sort_by-Agree before after (x ∷ xs) (e, h) =
      insert_sorted-Agree before after x (sort_by before xs)
        (sort_by-All before (λ y. before x y ≡ after x y) xs e)
      ∙ ap (insert_sorted after x) (sort_by-Agree before after xs h)
