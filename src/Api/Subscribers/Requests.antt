-- ===== src/Api/Subscribers/Requests.antt =====
-- The loop over the requested subscriptions, while the database answers.
use slurpee.Prelude.{
  ℕ, ◌≡◌, refl, ap, sym, ◌∙◌, subst, true, false, ◌⊎◌, inl, inr, Bool-cases, Option, none, some,
  List, [], ◌∷◌, All, map, find, if◌then◌else◌,
}
use slurpee.Prelude.Keys.{Bytes, ◌==◌, ==_iff, bytes_eq, lookup}
use slurpee.Model.{PgUuid, uuid_eq, Subscription}
use slurpee.External.{External}
use slurpee.App.{Application}
use slurpee.Api.{Reply, replied}
use slurpee.Api.Subscribers.{
  SubscriptionRequest, SubscriptionResponse, subscription_to_response, sync_one, sync_all,
}
use slurpee.Api.Subscribers.Entries.{entry}
use slurpee.Api.Subscribers.Rows.{IsReady}
use slurpee.Api.Subscribers.Syncing.{saying, wanted, Knows, sync_one-Synced}
use slurpee.Api.Subscribers.Patterns.{named, AreApart, find-apart}
use slurpee.Api.Subscribers.Answers.{and_then_replied}

abbrev pub requested : SubscriptionRequest → Bytes
requested r = r.subject_pattern

-- An entry after the requests: unchanged, or what a request wants.
abbrev pub Becomes : Option SubscriptionRequest → List Subscription → List Subscription → Type 0
Becomes none before after = after ≡ before
Becomes (some r) before after = map saying after ≡ wanted r ∷ []

-- The entry of a pattern in the table.
abbrev pub entry_in : PgUuid → Bytes → Application → List Subscription
entry_in owner q a = entry owner q a.db.subscriptions

abbrev pub KnowsAll :
    PgUuid → List (Bytes × Subscription) → Application → List SubscriptionRequest → Type 0
KnowsAll owner existing a subs =
    All (λ r. Knows (lookup r.subject_pattern existing) (entry_in owner r.subject_pattern a)) subs

module _ {Value : Type 0} (ext : External Value) (owner : PgUuid)
    (distinct : (j k : ℕ) → ext.new_v7 j ≡ ext.new_v7 k → j ≡ k) where
  pub record SyncedAll (a : Application) (subs : List SubscriptionRequest)
      (result : Reply (List SubscriptionResponse) × Application) : Type 0 where
    pub rows : List SubscriptionResponse
    pub answers : result.0 ≡ replied 200 rows
    pub ready : IsReady ext owner result.1
    pub entries :
        (q : Bytes)
        → Becomes (find (named requested q) subs) (entry_in owner q a) (entry_in owner q result.1)

  -- What is known of the other patterns is still known after a round.
  still_known :
      (existing : List (Bytes × Subscription)) (a b : Application) (p : Bytes)
      (subs : List SubscriptionRequest)
      → ((q : Bytes) → (p == q) ≡ false → entry_in owner q b ≡ entry_in owner q a)
      → All (λ r. (p == requested r) ≡ false) subs
      → KnowsAll owner existing a subs
      → KnowsAll owner existing b subs
  still_known existing a b p [] others apart h = tt
  still_known existing a b p (r ∷ subs) others (first, apart) (this, h) = (
    subst (Knows (lookup r.subject_pattern existing)) (sym (others r.subject_pattern first)) this,
    still_known existing a b p subs others apart h,
  )

  pub sync_all-SyncedAll :
      (existing : List (Bytes × Subscription)) (subs : List SubscriptionRequest) (a : Application)
      → IsReady ext owner a
      → AreApart requested subs
      → KnowsAll owner existing a subs
      → SyncedAll a subs (sync_all ext owner existing subs a)
  unfolding sync_all find
  sync_all-SyncedAll existing [] a h apart known = record {
    rows = [];
    answers = refl;
    ready = h;
    entries = λ q. refl;
  }
  sync_all-SyncedAll existing (r ∷ subs) a h (first, apart) (this, known) =
      let one = sync_one-Synced ext owner distinct a existing r h this in
      let b = (sync_one ext owner existing r a).1 in
      let rest =
        sync_all-SyncedAll existing subs b one.ready apart
          (still_known existing a b r.subject_pattern subs one.others first known) in
      subst (SyncedAll a (r ∷ subs)) (sym (answer one.row rest.rows one.answers rest.answers))
        (record {
          rows = subscription_to_response ext one.row ∷ rest.rows;
          answers = refl;
          ready = rest.ready;
          entries = λ q.
              entries_cons b (sync_all ext owner existing subs b).1 q
                (Bool-cases (r.subject_pattern == q)) one.same (one.others q) (rest.entries q);
        })
    where
      answer :
          (row : Subscription) (rows : List SubscriptionResponse)
          → (sync_one ext owner existing r a).0 ≡ replied 200 row
          → (sync_all ext owner existing subs (sync_one ext owner existing r a).1).0
            ≡ replied 200 rows
          → sync_all ext owner existing (r ∷ subs) a ≡ (
            replied 200 (subscription_to_response ext row ∷ rows),
            (sync_all ext owner existing subs (sync_one ext owner existing r a).1).1,
          )
      answer row rows e f =
          and_then_replied (sync_one ext owner existing r) _ a e
          ∙ and_then_replied (sync_all ext owner existing subs) _
              (sync_one ext owner existing r a).1 f

      entries_cons :
          (b c : Application) (q : Bytes)
          → ((r.subject_pattern == q) ≡ true) ⊎ ((r.subject_pattern == q) ≡ false)
          → map saying (entry_in owner r.subject_pattern b) ≡ wanted r ∷ []
          → ((r.subject_pattern == q) ≡ false → entry_in owner q b ≡ entry_in owner q a)
          → Becomes (find (named requested q) subs) (entry_in owner q b) (entry_in owner q c)
          → Becomes
              (if r.subject_pattern == q then some r else find (named requested q) subs)
              (entry_in owner q a)
              (entry_in owner q c)
      entries_cons b c q (inl hit) same others rest =
          let here = (==_iff r.subject_pattern q).0 hit in
          let none_left =
            find-apart requested q subs
              (subst (λ p. All (λ t. (p == requested t) ≡ false) subs) here first) in
          let kept =
            subst (λ o. Becomes o (entry_in owner q b) (entry_in owner q c)) none_left rest in
          rw hit (
            ap (map saying) kept
            ∙ subst (λ p. map saying (entry_in owner p b) ≡ wanted r ∷ []) here same)
      entries_cons b c q (inr missed) same others rest = rw missed (
          subst (λ before. Becomes (find (named requested q) subs) before (entry_in owner q c))
            (others missed) rest)
