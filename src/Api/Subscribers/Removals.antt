-- ===== src/Api/Subscribers/Removals.antt =====
-- The loop that deletes what is not requested, while the database answers.
use slurpee.Prelude.{
  ℕ, ◌≡◌, refl, ap, sym, ◌∙◌, subst, Bool, true, false, not, inl, inr, Bool-cases, List, [], ◌∷◌,
  All, find, keep_if, contains_if, if◌then◌else◌,
}
use slurpee.Prelude.Action.{Result, ok, on_option}
use slurpee.Prelude.Keys.{Bytes, codes, ◌==◌, ==_iff, bytes_eq}
use slurpee.Model.{PgUuid, pg_uuid, uuid_eq, Subscription}
use slurpee.Db.{Db, query_idle}
use slurpee.Db.Subscribers.{delete_subscription}
use slurpee.External.{External}
use slurpee.App.{Application, in_db}
use slurpee.Api.{Reply, Handler, replied}
use slurpee.Api.Subscribers.{SubscriptionRequest, and_then, or_500, delete_missing}
use slurpee.Api.Subscribers.Entries.{delete-IsUnique, contains_if-keep_if}
use slurpee.Api.Subscribers.Changes.{delete_same, delete_other}
use slurpee.Api.Subscribers.Rows.{with_rows, IsReady}
use slurpee.Api.Subscribers.Patterns.{named, AreApart, find-apart, pattern_of}
use slurpee.Api.Subscribers.Answers.{and_then_replied}
use slurpee.Api.Subscribers.Requests.{requested, entry_in}

-- An entry after the deletions: gone, if it is listed and not requested.
abbrev pub survives :
    List SubscriptionRequest → List Subscription → Bytes → List Subscription → List Subscription
survives subs existing q before =
    if contains_if (named requested q) subs
    then before
    else on_option (find (named pattern_of q) existing) before (λ s. [])

-- What is not requested is the only entry of its pattern.
abbrev pub IsListed : PgUuid → List SubscriptionRequest → Application → Subscription → Type 0
IsListed owner subs a s =
    contains_if (named requested s.subject_pattern) subs ≡ false
    → entry_in owner s.subject_pattern a ≡ s ∷ []

module _ {Value : Type 0} (ext : External Value) (owner : PgUuid)
    (distinct : (j k : ℕ) → ext.new_v7 j ≡ ext.new_v7 k → j ≡ k) where
  pub record Cleared (a : Application) (subs : List SubscriptionRequest)
      (existing : List Subscription) (result : Reply (Unit {0}) × Application) : Type 0 where
    pub answers : result.0 ≡ replied 200 tt
    pub entries :
        (q : Bytes) → entry_in owner q result.1 ≡ survives subs existing q (entry_in owner q a)

  abbrev without : PgUuid → Application → Application
  without id a = with_rows (keep_if (λ s. not (s.id == id)) a.db.subscriptions) a

  delete_row :
      (id : PgUuid) (a : Application)
      → a.db.outages ≡ []
      → in_db (delete_subscription id) a ≡ (ok tt, without id a)
  unfolding delete_subscription in_db
  delete_row id a up =
      ap (λ (r : Result (Unit {0}) × Db). (r.0, record a { db = r.1 })) (query_idle _ a.db up)

  -- The deletion of one listed subscription.
  delete_one :
      (s : Subscription) (a : Application)
      → IsReady ext owner a
      → or_500 (codes "Failed to delete subscription") (in_db (delete_subscription s.id)) a
        ≡ (replied 200 tt, without s.id a)
  unfolding or_500
  delete_one s a h = rw (delete_row s.id a h.up) refl

  without-IsReady :
      (id : PgUuid) (a : Application) → IsReady ext owner a → IsReady ext owner (without id a)
  without-IsReady id a h = record {
    up = h.up;
    known = h.known;
    unique = delete-IsUnique (λ s. not (s.id == id)) a.db.subscriptions h.unique;
    fresh = λ k late.
        contains_if-keep_if (pg_uuid (ext.new_v7 k)) (λ s. not (s.id == id)) a.db.subscriptions
          (h.fresh k late);
  }

  still-IsListed :
      (subs : List SubscriptionRequest) (a b : Application) (p : Bytes) (xs : List Subscription)
      → ((q : Bytes) → (p == q) ≡ false → entry_in owner q b ≡ entry_in owner q a)
      → All (λ s. (p == pattern_of s) ≡ false) xs
      → All (IsListed owner subs a) xs
      → All (IsListed owner subs b) xs
  still-IsListed subs a b p [] others apart h = tt
  still-IsListed subs a b p (s ∷ xs) others (first, apart) (this, h) = (
    λ absent. others s.subject_pattern first ∙ this absent,
    still-IsListed subs a b p xs others apart h,
  )

  -- The entries of a list behind its first element.
  survives_cons :
      (subs : List SubscriptionRequest) (s : Subscription) (xs : List Subscription) (q : Bytes)
      (before after : List Subscription)
      → All (λ t. (pattern_of s == pattern_of t) ≡ false) xs
      → contains_if (named requested s.subject_pattern) subs ≡ false
      → ((pattern_of s == q) ≡ true → after ≡ [])
      → ((pattern_of s == q) ≡ false → after ≡ before)
      → survives subs xs q after ≡ survives subs (s ∷ xs) q before
  unfolding find
  survives_cons subs s xs q before after apart absent gone kept =
      elim (Bool-cases (s.subject_pattern == q)) [
        | inl hit ↦
            let here = (==_iff s.subject_pattern q).0 hit in
            let none_left =
              find-apart pattern_of q xs
                (subst (λ p. All (λ t. (p == pattern_of t) ≡ false) xs) here apart) in
            let absent_here =
              subst (λ p. contains_if (named requested p) subs ≡ false) here absent in
            rw (absent_here, hit, none_left) (gone hit)
        | inr missed ↦ rw (missed, kept missed) refl
      ]

  survives-requested :
      (subs : List SubscriptionRequest) (s : Subscription) (xs : List Subscription) (q : Bytes)
      (before : List Subscription)
      → contains_if (named requested s.subject_pattern) subs ≡ true
      → survives subs xs q before ≡ survives subs (s ∷ xs) q before
  unfolding find
  survives-requested subs s xs q before present = elim (Bool-cases (s.subject_pattern == q)) [
    | inl hit ↦
        let present_here =
          subst (λ p. contains_if (named requested p) subs ≡ true)
            ((==_iff s.subject_pattern q).0 hit) present in
        rw present_here refl
    | inr missed ↦ rw missed refl
  ]

  -- The loop of the deletions.
  pub delete_missing-Cleared :
      (subs : List SubscriptionRequest) (existing : List Subscription) (a : Application)
      → IsReady ext owner a
      → AreApart pattern_of existing
      → All (IsListed owner subs a) existing
      → Cleared a subs existing (delete_missing ext subs existing a)
  unfolding delete_missing find
  delete_missing-Cleared subs [] a h apart listed = record {
    answers = refl;
    entries = λ q. kept (contains_if (named requested q) subs) (entry_in owner q a);
  }
    where
      kept : (b : Bool) (before : List Subscription) → before ≡ (if b then before else before)
      kept true before = refl
      kept false before = refl
  delete_missing-Cleared subs (s ∷ xs) a h (first, apart) (this, listed) =
      by_test (λ b ready still. delete_missing-Cleared subs xs b ready apart still)
        (contains_if (named requested s.subject_pattern) subs) refl
    where
      deletes : Handler (Unit {0})
      deletes = or_500 (codes "Failed to delete subscription") (in_db (delete_subscription s.id))

      by_test :
          ((b : Application)
            → IsReady ext owner b
            → All (IsListed owner subs b) xs
            → Cleared b subs xs (delete_missing ext subs xs b))
          → (b : Bool) → contains_if (named requested s.subject_pattern) subs ≡ b
          → Cleared a subs (s ∷ xs) (
              (if b
                  then delete_missing ext subs xs
                  else and_then deletes (λ _. delete_missing ext subs xs))
                a)
      by_test rec true present =
          let rest = rec a h listed in
          record {
            answers = rest.answers;
            entries =
                λ q. rest.entries q ∙ survives-requested subs s xs q (entry_in owner q a) present;
          }
      by_test rec false absent =
          let b = without s.id a in
          let rows = a.db.subscriptions in
          let e = this absent in
          let gone = delete_same owner s.subject_pattern s rows h.unique e in
          let others = delete_other owner s.subject_pattern s rows h.unique e in
          let rest =
            rec b (without-IsReady s.id a h)
              (still-IsListed subs a b s.subject_pattern xs others first listed) in
          subst (Cleared a subs (s ∷ xs))
            (sym (
              and_then_replied deletes _ a (ap (λ r. r.0) (delete_one s a h))
              ∙ ap (λ r. delete_missing ext subs xs r.1) (delete_one s a h)))
            (record {
              answers = rest.answers;
              entries = λ q.
                  rest.entries q
                  ∙ survives_cons subs s xs q (entry_in owner q a) (entry_in owner q b) first absent
                      (λ hit.
                        subst (λ p. entry_in owner p b ≡ []) ((==_iff s.subject_pattern q).0 hit)
                          gone)
                      (others q);
            })
