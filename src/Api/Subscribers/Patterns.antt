-- ===== src/Api/Subscribers/Patterns.antt =====
-- Lists whose elements have different patterns, and what is found in them.
use slurpee.Prelude.{
  ◌≡◌, refl, ap, ◌∙◌, subst, arith, Bool, true, false, inl, inr, Bool-cases, none, some, List, [],
  ◌∷◌, All, find, keep_if, contains_if,
}
use slurpee.Prelude.Action.{on_option}
use slurpee.Prelude.Keys.{
  Bytes, ◌==◌, ==_iff, ==_refl, bytes_eq, bytes_beq_iff, lookup, insert, lookup-insert,
}
use slurpee.Model.{PgUuid, uuid_eq, Subscription}
use slurpee.Db.Subscribers.{owned_by}
use slurpee.Api.Subscribers.{by_pattern}
use slurpee.Api.Subscribers.Entries.{entry}
use slurpee.Api.Subscribers.Syncing.{Knows}

module _ {A : Type 0} (key : A → Bytes) where
  -- The element with a pattern.
  abbrev pub named : Bytes → A → Bool
  named p x = key x == p

  abbrev pub AreApart : List A → Type 0
  AreApart [] = Unit
  AreApart (x ∷ xs) = All (λ y. (key x == key y) ≡ false) xs × AreApart xs

  pub find-apart :
      (p : Bytes) (xs : List A) → All (λ y. (p == key y) ≡ false) xs → find (named p) xs ≡ none
  unfolding find
  find-apart p [] h = refl
  find-apart p (x ∷ xs) (apart, h) =
      ground (arith, bytes_beq_iff p (key x), bytes_beq_iff (key x) p, find-apart p xs h)

  pub keep_if-apart :
      (p : Bytes) (xs : List A) → All (λ y. (p == key y) ≡ false) xs → keep_if (named p) xs ≡ []
  unfolding keep_if
  keep_if-apart p [] h = refl
  keep_if-apart p (x ∷ xs) (apart, h) =
      ground (arith, bytes_beq_iff p (key x), bytes_beq_iff (key x) p, keep_if-apart p xs h)

  pub find-contains_if :
      (p : Bytes) (xs : List A)
      → contains_if (named p) xs ≡ on_option (find (named p) xs) false (λ x. true)
  unfolding find contains_if
  find-contains_if p [] = refl
  find-contains_if p (x ∷ xs) = elim (Bool-cases (key x == p)) [
    | inl passes ↦ rw passes refl
    | inr fails ↦ rw fails (find-contains_if p xs)
  ]

abbrev pub pattern_of : Subscription → Bytes
pattern_of s = s.subject_pattern

pub find-Knows :
    (p : Bytes) (xs : List Subscription)
    → AreApart pattern_of xs
    → Knows (find (named pattern_of p) xs) (keep_if (named pattern_of p) xs)
unfolding find keep_if
find-Knows p [] h = refl
find-Knows p (x ∷ xs) (apart, h) = elim (Bool-cases (x.subject_pattern == p)) [
  | inl passes ↦ rw passes (
      ap (λ l. x ∷ l)
        (keep_if-apart pattern_of p xs (
          subst (λ q. All (λ y. (q == pattern_of y) ≡ false) xs)
            ((==_iff x.subject_pattern p).0 passes) apart)))
  | inr fails ↦ rw fails (find-Knows p xs h)
]

pub lookup-by_pattern :
    (p : Bytes) (m : List (Bytes × Subscription)) (xs : List Subscription)
    → AreApart pattern_of xs
    → lookup p (by_pattern m xs) ≡ on_option (find (named pattern_of p) xs) (lookup p m) some
unfolding by_pattern find
lookup-by_pattern p m [] h = refl
lookup-by_pattern p m (x ∷ xs) (apart, h) =
    lookup-by_pattern p (insert x.subject_pattern x m) xs h
    ∙ (elim (Bool-cases (x.subject_pattern == p)) [
      | inl passes ↦
          let none_left = find-apart pattern_of p xs (
            subst (λ q. All (λ y. (q == pattern_of y) ≡ false) xs)
              ((==_iff x.subject_pattern p).0 passes) apart) in
          rw (none_left, lookup-insert, passes) refl
      | inr fails ↦ rw (lookup-insert, fails) refl
    ])

-- The entries of a subscriber are those of its subscriptions.
pub entry-owned_by :
    (owner : PgUuid) (p : Bytes) (rows : List Subscription)
    → entry owner p rows ≡ keep_if (named pattern_of p) (owned_by owner rows)
unfolding entry owned_by keep_if
entry-owned_by owner p [] = refl
entry-owned_by owner p (x ∷ rows) = elim (Bool-cases (x.subscriber_id == owner)) [
  | inl mine ↦ elim (Bool-cases (x.subject_pattern == p)) [
    | inl passes ↦ rw (mine, passes) (ap (λ l. x ∷ l) (entry-owned_by owner p rows))
    | inr fails ↦ rw (mine, fails) (entry-owned_by owner p rows)
  ]
  | inr foreign ↦ rw foreign (entry-owned_by owner p rows)
]

-- Each subscription is the only one of its pattern.
abbrev pub IsAlone : List Subscription → Subscription → Type 0
IsAlone xs s = keep_if (named pattern_of s.subject_pattern) xs ≡ s ∷ []

beside-IsAlone :
    (x : Subscription) (xs ys : List Subscription)
    → All (λ y. (pattern_of x == pattern_of y) ≡ false) ys
    → All (IsAlone xs) ys
    → All (IsAlone (x ∷ xs)) ys
unfolding keep_if
beside-IsAlone x xs [] apart h = tt
beside-IsAlone x xs (y ∷ ys) (first, apart) (this, h) =
    (rw first this, beside-IsAlone x xs ys apart h)

pub AreApart-IsAlone : (xs : List Subscription) → AreApart pattern_of xs → All (IsAlone xs) xs
unfolding keep_if
AreApart-IsAlone [] h = tt
AreApart-IsAlone (x ∷ xs) (apart, h) = (
  rw (==_refl x.subject_pattern)
      (ap (λ l. x ∷ l) (keep_if-apart pattern_of x.subject_pattern xs apart)),
  beside-IsAlone x xs xs apart (AreApart-IsAlone xs h),
)
