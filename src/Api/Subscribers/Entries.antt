-- ===== src/Api/Subscribers/Entries.antt =====
-- The subscriptions of one subscriber with one pattern, and how changes of the table change them.
use slurpee.Prelude.{
  ◌≡◌, refl, ap, sym, ◌∙◌, arith, Bool, true, false, not, ◌&&◌, ◌||◌, inl, inr, Bool-cases, List,
  [], ◌∷◌, ◌++◌, All, keep_if, contains_if, update_if, if◌then◌else◌,
}
use slurpee.Prelude.Keys.{Bytes, ◌==◌, ==_iff, bytes_eq}
use slurpee.Model.{PgUuid, uuid_eq, Subscription}

abbrev pub has_key : PgUuid → Bytes → Subscription → Bool
has_key owner pattern s = s.subscriber_id == owner && s.subject_pattern == pattern

unfoldable pub entry : PgUuid → Bytes → List Subscription → List Subscription
entry owner pattern = keep_if (has_key owner pattern)

module _ (test : Subscription → Bool) where
  pub keep_if-++ :
      (xs ys : List Subscription) → keep_if test (xs ++ ys) ≡ keep_if test xs ++ keep_if test ys
  unfolding keep_if
  keep_if-++ [] ys = refl
  keep_if-++ (x ∷ xs) ys = ground (arith, keep_if-++ xs ys)

  pub keep_if-All : (xs : List Subscription) → All (λ s. test s ≡ true) (keep_if test xs)
  unfolding keep_if
  keep_if-All [] = tt
  keep_if-All (x ∷ xs) = by_test (test x) refl (keep_if-All xs)
    where
      by_test :
          (b : Bool)
          → test x ≡ b
          → All (λ s. test s ≡ true) (keep_if test xs)
          → All (λ s. test s ≡ true) (if b then x ∷ keep_if test xs else keep_if test xs)
      by_test true e h = (e, h)
      by_test false e h = h

  -- Keeping by one test and by another can be swapped.
  pub keep_if_swap :
      (other : Subscription → Bool) (xs : List Subscription)
      → keep_if test (keep_if other xs) ≡ keep_if other (keep_if test xs)
  unfolding keep_if
  keep_if_swap other [] = refl
  keep_if_swap other (x ∷ xs) = elim (Bool-cases (test x)) [
    | inl passes ↦ elim (Bool-cases (other x)) [
      | inl both ↦ rw (both, passes, both) (ap (λ l. x ∷ l) (keep_if_swap other xs))
      | inr one ↦ rw (one, passes, one) (keep_if_swap other xs)
    ]
    | inr fails ↦ elim (Bool-cases (other x)) [
      | inl one ↦ rw (one, fails) (keep_if_swap other xs)
      | inr neither ↦ rw (neither, fails) (keep_if_swap other xs)
    ]
  ]

  -- A change of some rows that keeps what is tested.
  pub keep_if-update_if :
      (changed : Subscription → Bool) (f : Subscription → Subscription) (xs : List Subscription)
      → ((s : Subscription) → test (f s) ≡ test s)
      → keep_if test (update_if changed f xs) ≡ update_if changed f (keep_if test xs)
  unfolding keep_if update_if
  keep_if-update_if changed f [] keeps = refl
  keep_if-update_if changed f (x ∷ xs) keeps =
      ground (arith, keeps x, keep_if-update_if changed f xs keeps)

  pub keep_if-none : (xs : List Subscription) → contains_if test xs ≡ false → keep_if test xs ≡ []
  unfolding keep_if contains_if
  keep_if-none [] h = refl
  keep_if-none (x ∷ xs) h = ground (arith, keep_if-none xs)

  pub update_if-none :
      (f : Subscription → Subscription) (xs : List Subscription)
      → keep_if test xs ≡ []
      → update_if test f xs ≡ xs
  unfolding keep_if update_if
  update_if-none f [] h = refl
  update_if-none f (x ∷ xs) h = ground (arith, update_if-none f xs)

  pub keep_if-not-none :
      (xs : List Subscription) → keep_if test xs ≡ [] → keep_if (λ s. not (test s)) xs ≡ xs
  unfolding keep_if
  keep_if-not-none [] h = refl
  keep_if-not-none (x ∷ xs) h = ground (arith, keep_if-not-none xs)

-- At most one row.
pub data Single (xs : List Subscription) : Type 0 where
  nothing : xs ≡ [] → Single xs
  one : (s : Subscription) → xs ≡ s ∷ [] → Single xs

abbrev pub has_id : PgUuid → Subscription → Bool
has_id id s = s.id == id

-- The primary key: no two rows of one id.
pub record IsUnique (rows : List Subscription) : Type 0 where
  pub at : (id : PgUuid) → Single (keep_if (has_id id) rows)

keep_if-Single :
    (test : Subscription → Bool) (xs ys : List Subscription)
    → ys ≡ keep_if test xs
    → Single xs
    → Single ys
unfolding keep_if
keep_if-Single test xs ys e (nothing none_kept) = nothing (e ∙ ap (keep_if test) none_kept)
keep_if-Single test xs ys e (one s kept) = elim (Bool-cases (test s)) [
  | inl passes ↦ one s (e ∙ ap (keep_if test) kept ∙ rw passes refl)
  | inr fails ↦ nothing (e ∙ ap (keep_if test) kept ∙ rw fails refl)
]

pub delete-IsUnique :
    (test : Subscription → Bool) (rows : List Subscription)
    → IsUnique rows
    → IsUnique (keep_if test rows)
delete-IsUnique test rows h = record {
  at = λ id. keep_if-Single test _ _ (keep_if_swap (has_id id) test rows) (h.at id);
}

pub update-IsUnique :
    (test : Subscription → Bool) (f : Subscription → Subscription) (rows : List Subscription)
    → ((s : Subscription) → (f s).id ≡ s.id)
    → IsUnique rows
    → IsUnique (update_if test f rows)
unfolding update_if
update-IsUnique test f rows keeps h = record { at = λ id. updated id (h.at id) }
  where
    swapped :
        (id : PgUuid)
        → keep_if (has_id id) (update_if test f rows) ≡ update_if test f (keep_if (has_id id) rows)
    swapped id = keep_if-update_if (has_id id) test f rows (λ s. ap (λ i. i == id) (keeps s))

    updated :
        (id : PgUuid)
        → Single (keep_if (has_id id) rows)
        → Single (keep_if (has_id id) (update_if test f rows))
    updated id (nothing e) = nothing (swapped id ∙ ap (update_if test f) e)
    updated id (one s e) = one (if test s then f s else s) (swapped id ∙ ap (update_if test f) e)

pub insert-IsUnique :
    (new : Subscription) (rows : List Subscription)
    → contains_if (has_id new.id) rows ≡ false
    → IsUnique rows
    → IsUnique (rows ++ new ∷ [])
unfolding keep_if
insert-IsUnique new rows fresh h = record { at = λ id. inserted id (new.id == id) refl }
  where
    inserted :
        (id : PgUuid) (b : Bool)
        → (new.id == id) ≡ b
        → Single (keep_if (has_id id) (rows ++ new ∷ []))
    inserted id true e = one new (
        keep_if-++ (has_id id) rows (new ∷ [])
        ∙ rw e (
            ap (λ xs. xs ++ new ∷ [])
              (ap (λ i. keep_if (has_id i) rows) (sym ((==_iff new.id id).0 e))
                ∙ keep_if-none (has_id new.id) rows fresh)))
    inserted id false e = by_rows (h.at id)
      where
        by_rows :
            Single (keep_if (has_id id) rows) → Single (keep_if (has_id id) (rows ++ new ∷ []))
        by_rows (nothing kept) =
            nothing (keep_if-++ (has_id id) rows (new ∷ []) ∙ rw e (ap (λ xs. xs ++ []) kept))
        by_rows (one s kept) =
            one s (keep_if-++ (has_id id) rows (new ∷ []) ∙ rw e (ap (λ xs. xs ++ []) kept))

-- Whether an id is in use, after each kind of change.
pub contains_if-update_if :
    (id : PgUuid) (test : Subscription → Bool) (f : Subscription → Subscription)
    (rows : List Subscription)
    → ((s : Subscription) → (f s).id ≡ s.id)
    → contains_if (has_id id) (update_if test f rows) ≡ contains_if (has_id id) rows
unfolding contains_if update_if
contains_if-update_if id test f [] keeps = refl
contains_if-update_if id test f (x ∷ rows) keeps = elim (Bool-cases (test x)) [
  | inl passes ↦
      rw (passes, keeps x) (ap (λ b. has_id id x || b) (contains_if-update_if id test f rows keeps))
  | inr fails ↦ rw fails (ap (λ b. has_id id x || b) (contains_if-update_if id test f rows keeps))
]

pub contains_if-++ :
    (id : PgUuid) (new : Subscription) (rows : List Subscription)
    → contains_if (has_id id) rows ≡ false
    → (new.id == id) ≡ false
    → contains_if (has_id id) (rows ++ new ∷ []) ≡ false
unfolding contains_if
contains_if-++ id new [] h apart = ground arith
contains_if-++ id new (x ∷ rows) h apart = ground (arith, contains_if-++ id new rows)

pub contains_if-keep_if :
    (id : PgUuid) (test : Subscription → Bool) (rows : List Subscription)
    → contains_if (has_id id) rows ≡ false
    → contains_if (has_id id) (keep_if test rows) ≡ false
unfolding contains_if keep_if
contains_if-keep_if id test [] h = refl
contains_if-keep_if id test (x ∷ rows) h = ground (arith, contains_if-keep_if id test rows)
