-- ===== src/Api/Subscribers/Changes.antt =====
-- What the queries of a registration make of the entries of a subscriber.
use mathlib.Core.List.{head-eq_of_cons-eq, append-nil}
use slurpee.Prelude.{
  ◌≡◌, ◌≢◌, find, refl, ap, sym, ◌∙◌, subst, arith, Bool, true, false, not, inl, inr, Bool-cases,
  some, List, [], ◌∷◌, ◌++◌, keep_if, update_if,
}
use slurpee.Prelude.Keys.{Bytes, ◌==◌, ==_refl, bytes_eq, bytes_beq_iff}
use slurpee.Model.{PgUuid, uuid_eq, Subscription}
use slurpee.Api.Subscribers.Entries.{
  has_key, has_id, entry, IsUnique, Single, nothing, one, keep_if-++, keep_if_swap,
  keep_if-update_if, update_if-none, keep_if-not-none,
}

-- A change that keeps what an entry is found by.
pub record KeepsKey (f : Subscription → Subscription) : Type 0 where
  pub id : (s : Subscription) → (f s).id ≡ s.id
  pub owner : (s : Subscription) → (f s).subscriber_id ≡ s.subscriber_id
  pub pattern : (s : Subscription) → (f s).subject_pattern ≡ s.subject_pattern

find-keep_if :
    (test : Subscription → Bool) (xs : List Subscription) {s : Subscription}
    → keep_if test xs ≡ s ∷ []
    → find test xs ≡ some s
unfolding find keep_if
find-keep_if test [] h = absurd (ground arith)
find-keep_if test (x ∷ xs) h = elim (Bool-cases (test x)) [
  | inl passes ↦ rw passes (ap some (head-eq_of_cons-eq (rw passes at h)))
  | inr fails ↦ rw fails (find-keep_if test xs (rw fails at h))
]

module _ (owner : PgUuid) where
  other_key :
      (p q : Bytes) (s : Subscription)
      → (p == q) ≡ false
      → has_key owner p s ≡ true
      → has_key owner q s ≡ false
  other_key p q s apart mine = ground (
    arith,
    bytes_beq_iff s.subject_pattern p,
    bytes_beq_iff s.subject_pattern q,
    bytes_beq_iff p q,
  )

  -- The row of an entry is in no other.
  module _ (p : Bytes) (old : Subscription) (rows : List Subscription) (unique : IsUnique rows)
      (e : entry owner p rows ≡ old ∷ []) where
    alone : keep_if (has_id old.id) (old ∷ []) ≡ old ∷ []
    unfolding keep_if
    alone = rw (==_refl old.id) refl

    by_id : entry owner p (keep_if (has_id old.id) rows) ≡ old ∷ []
    unfolding entry
    by_id =
        sym (keep_if_swap (has_id old.id) (has_key owner p) rows)
        ∙ ap (keep_if (has_id old.id)) e
        ∙ alone

    only :
        (s : Subscription)
        → entry owner p (s ∷ []) ≡ old ∷ []
        → (s ≡ old) × (has_key owner p old ≡ true)
    unfolding entry keep_if
    only s h = elim (Bool-cases (has_key owner p s)) [
      | inl mine ↦
          let same = head-eq_of_cons-eq (rw mine at h) in
          (same, subst (λ t. has_key owner p t ≡ true) same mine)
      | inr foreign ↦ absurd (ground (arith, foreign, h))
    ]

    no_entry : entry owner p [] ≢ old ∷ []
    unfolding entry keep_if
    no_entry h = ground arith

    apart_entry : (q : Bytes) → (p == q) ≡ false → keep_if (has_id old.id) (entry owner q rows) ≡ []
    unfolding entry keep_if
    apart_entry q apart =
        keep_if_swap (has_id old.id) (has_key owner q) rows
        ∙ by_rows (keep_if (has_id old.id) rows) by_id (unique.at old.id)
      where
        by_rows :
            (xs : List Subscription)
            → entry owner p xs ≡ old ∷ []
            → Single xs
            → keep_if (has_key owner q) xs ≡ []
        by_rows xs found (nothing none_kept) =
            absurd (ground (arith, sym (ap (entry owner p) none_kept) ∙ found))
        by_rows xs found (one s kept) =
            let (same, mine) = only s (sym (ap (entry owner p) kept) ∙ found) in
            ap (keep_if (has_key owner q)) (kept ∙ ap (λ x. x ∷ []) same)
            ∙ rw (other_key p q old apart mine) refl

    found_by_id : keep_if (has_id old.id) rows ≡ old ∷ []
    found_by_id = by_rows (keep_if (has_id old.id) rows) by_id (unique.at old.id)
      where
        by_rows : (xs : List Subscription) → entry owner p xs ≡ old ∷ [] → Single xs → xs ≡ old ∷ []
        by_rows xs found (nothing none_kept) =
            absurd (no_entry (sym (ap (entry owner p) none_kept) ∙ found))
        by_rows xs found (one s kept) =
            kept ∙ ap (λ x. x ∷ []) (only s (sym (ap (entry owner p) kept) ∙ found)).0

    abbrev pub updated : (Subscription → Subscription) → List Subscription
    updated f = update_if (has_id old.id) f rows

    entry-updated :
        (f : Subscription → Subscription) (q : Bytes)
        → KeepsKey f
        → entry owner q (updated f) ≡ update_if (has_id old.id) f (entry owner q rows)
    unfolding entry
    entry-updated f q keeps =
        keep_if-update_if (has_key owner q) (has_id old.id) f rows
          λ s. rw (keeps.owner s, keeps.pattern s) refl

    pub update_same :
        (f : Subscription → Subscription) → KeepsKey f → entry owner p (updated f) ≡ f old ∷ []
    unfolding update_if
    update_same f keeps =
        entry-updated f p keeps ∙ ap (update_if (has_id old.id) f) e ∙ rw (==_refl old.id) refl

    pub update_other :
        (f : Subscription → Subscription) (q : Bytes)
        → KeepsKey f
        → (p == q) ≡ false
        → entry owner q (updated f) ≡ entry owner q rows
    update_other f q keeps apart =
        entry-updated f q keeps
        ∙ update_if-none (has_id old.id) f (entry owner q rows) (apart_entry q apart)

    pub find-updated :
        (f : Subscription → Subscription)
        → KeepsKey f
        → find (has_id old.id) (updated f) ≡ some (f old)
    unfolding update_if
    find-updated f keeps = find-keep_if (has_id old.id) (updated f) (
        keep_if-update_if (has_id old.id) (has_id old.id) f rows
          (λ s. ap (λ i. i == old.id) (keeps.id s))
        ∙ ap (update_if (has_id old.id) f) found_by_id
        ∙ rw (==_refl old.id) refl)

    abbrev pub deleted : List Subscription
    deleted = keep_if (λ s. not (s.id == old.id)) rows

    entry-deleted :
        (q : Bytes)
        → entry owner q deleted ≡ keep_if (λ s. not (has_id old.id s)) (entry owner q rows)
    unfolding entry
    entry-deleted q = keep_if_swap (has_key owner q) (λ s. not (s.id == old.id)) rows

    pub delete_same : entry owner p deleted ≡ []
    unfolding keep_if
    delete_same =
        entry-deleted p ∙ ap (keep_if (λ s. not (has_id old.id s))) e ∙ rw (==_refl old.id) refl

    pub delete_other : (q : Bytes) → (p == q) ≡ false → entry owner q deleted ≡ entry owner q rows
    delete_other q apart =
        entry-deleted q
        ∙ keep_if-not-none (has_id old.id) (entry owner q rows) (apart_entry q apart)

  pub insert_same :
      (p : Bytes) (new : Subscription) (rows : List Subscription)
      → entry owner p rows ≡ []
      → has_key owner p new ≡ true
      → entry owner p (rows ++ new ∷ []) ≡ new ∷ []
  unfolding entry keep_if
  insert_same p new rows e mine =
      keep_if-++ (has_key owner p) rows (new ∷ []) ∙ rw (mine) (ap (λ xs. xs ++ new ∷ []) e)

  pub insert_other :
      (q : Bytes) (new : Subscription) (rows : List Subscription)
      → has_key owner q new ≡ false
      → entry owner q (rows ++ new ∷ []) ≡ entry owner q rows
  unfolding entry keep_if
  insert_other q new rows foreign =
      keep_if-++ (has_key owner q) rows (new ∷ [])
      ∙ rw foreign (append-nil (keep_if (has_key owner q) rows))
