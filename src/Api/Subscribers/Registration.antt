-- ===== src/Api/Subscribers/Registration.antt =====
-- `createSubscriberHandler` once the subscriber is stored, while the database answers.
use slurpee.Prelude.{
  ℕ, ◌≡◌, refl, ap, sym, ◌∙◌, subst, arith, true, false, Option, none, some, List, [], ◌∷◌, All,
  map, find, contains_if, is_empty, if◌then◌else◌, Bool-cases, inl, inr,
}
use slurpee.Prelude.Action.{Result, ok, on_option}
use slurpee.Prelude.Int.{ℤ}
use slurpee.Prelude.Keys.{Bytes, codes, bytes_eq, ◌==◌, lookup}
use slurpee.Model.{PgUuid, uuid_eq, Subscriber, Subscription}
use slurpee.Db.{Db, query_idle}
use slurpee.Db.Subscribers.{owned_by, list_subscriptions_for_subscriber}
use slurpee.External.{External}
use slurpee.SubscriptionCache
use slurpee.App.{Application, in_db}
use slurpee.Api.{Reply, replied}
use slurpee.Api.Subscribers.{
  SubscriptionRequest, SubscriptionResponse, SubscriberResponse, filter_of, or_500, by_pattern,
  subscriber_to_response, sync_all, delete_missing, sync,
}
use slurpee.Api.Subscribers.Entries.{entry}
use slurpee.Api.Subscribers.Rows.{IsReady}
use slurpee.Api.Subscribers.Syncing.{saying, wanted, Knows}
use slurpee.Api.Subscribers.Patterns.{
  named, AreApart, find-contains_if, pattern_of, find-Knows, lookup-by_pattern, entry-owned_by,
  IsAlone, AreApart-IsAlone,
}
use slurpee.Api.Subscribers.Answers.{and_then_replied, and_then_goes, or_500_ok}
use slurpee.Api.Subscribers.Requests.{requested, Becomes, entry_in, KnowsAll, sync_all-SyncedAll}
use slurpee.Api.Subscribers.Removals.{survives, IsListed, delete_missing-Cleared}

module _ {Value : Type 0} (ext : External Value) (owner : PgUuid)
    (distinct : (j k : ℕ) → ext.new_v7 j ≡ ext.new_v7 k → j ≡ k) where
  -- What is known of the stored subscriptions.
  module _ (a : Application) (apart : AreApart pattern_of (owned_by owner a.db.subscriptions)) where
    abbrev stored : List Subscription
    stored = owned_by owner a.db.subscriptions

    stored-Knows : (q : Bytes) → Knows (find (named pattern_of q) stored) (entry_in owner q a)
    stored-Knows q =
        subst (Knows (find (named pattern_of q) stored))
          (sym (entry-owned_by owner q a.db.subscriptions)) (find-Knows q stored apart)

    map-Knows : (q : Bytes) → Knows (lookup q (by_pattern [] stored)) (entry_in owner q a)
    unfolding lookup
    map-Knows q =
        subst (λ o. Knows o (entry_in owner q a))
          (sym (lookup-by_pattern q [] stored apart ∙ same (find (named pattern_of q) stored)))
          (stored-Knows q)
      where
        same : (o : Option Subscription) → on_option o none some ≡ o
        same none = refl
        same (some s) = refl

    requests-KnowsAll :
        (subs : List SubscriptionRequest) → KnowsAll owner (by_pattern [] stored) a subs
    requests-KnowsAll [] = tt
    requests-KnowsAll (r ∷ subs) = (map-Knows r.subject_pattern, requests-KnowsAll subs)

    module _ (subs : List SubscriptionRequest) (b : Application)
        (synced : (q : Bytes)
          → Becomes (find (named requested q) subs) (entry_in owner q a) (entry_in owner q b)) where
      absent-kept :
          (q : Bytes)
          → contains_if (named requested q) subs ≡ false
          → entry_in owner q b ≡ entry_in owner q a
      absent-kept q absent =
          by_find (find (named requested q) subs) (find-contains_if requested q subs) (synced q)
        where
          by_find :
              (o : Option SubscriptionRequest)
              → contains_if (named requested q) subs ≡ on_option o false (λ x. true)
              → Becomes o (entry_in owner q a) (entry_in owner q b)
              → entry_in owner q b ≡ entry_in owner q a
          by_find none e kept = kept
          by_find (some r) e h = absurd (ground (arith, e, absent))

      alone-IsListed :
          (xs : List Subscription) → All (IsAlone stored) xs → All (IsListed owner subs b) xs
      alone-IsListed [] h = tt
      alone-IsListed (s ∷ xs) (this, h) = (
        λ absent.
            absent-kept s.subject_pattern absent
            ∙ entry-owned_by owner s.subject_pattern a.db.subscriptions
            ∙ this,
        alone-IsListed xs h,
      )

      -- After the requests and the deletions an entry is what is requested of it.
      registered :
          (q : Bytes)
          → map saying (survives subs stored q (entry_in owner q b))
            ≡ on_option (find (named requested q) subs) [] (λ r. wanted r ∷ [])
      registered q =
          by_find (find (named requested q) subs) (find-contains_if requested q subs) (synced q)
        where
          by_stored :
              (o : Option Subscription)
              → Knows o (entry_in owner q a)
              → entry_in owner q b ≡ entry_in owner q a
              → map saying (on_option o (entry_in owner q b) (λ s. [])) ≡ []
          by_stored none known kept = ap (map saying) (kept ∙ known)
          by_stored (some s) known kept = refl

          by_find :
              (o : Option SubscriptionRequest)
              → contains_if (named requested q) subs ≡ on_option o false (λ x. true)
              → Becomes o (entry_in owner q a) (entry_in owner q b)
              → map saying (survives subs stored q (entry_in owner q b))
                ≡ on_option o [] (λ r. wanted r ∷ [])
          by_find none e kept =
              rw e (by_stored (find (named pattern_of q) stored) (stored-Knows q) kept)
          by_find (some r) e h = rw e h

  list_stored :
      (a : Application)
      → a.db.outages ≡ []
      → in_db (list_subscriptions_for_subscriber owner) a
        ≡ (ok (owned_by owner a.db.subscriptions), a)
  unfolding list_subscriptions_for_subscriber in_db
  list_stored a up =
      ap (λ (r : Result (List Subscription) × Db). (r.0, record a { db = r.1 }))
        (query_idle _ a.db up)

-- What a subscription says when it is as requested: the filter, of which `null` is none, and the
-- retries.
abbrev pub asked : SubscriptionRequest → Bytes × Option ℤ
asked r = (
  if is_empty r.filter then [] else if r.filter == codes "null" then [] else r.filter,
  r.max_retries,
)

wanted-asked :
    (o : Option SubscriptionRequest)
    → on_option o [] (λ r. wanted r ∷ []) ≡ on_option o [] (λ r. asked r ∷ [])
unfolding filter_of
wanted-asked none = refl
wanted-asked (some r) = elim (Bool-cases (is_empty r.filter)) [
  | inl absent ↦ rw absent refl
  | inr given ↦ elim (Bool-cases (r.filter == codes "null")) [
    | inl null ↦ rw (given, null) refl
    | inr present ↦ rw (given, present) refl
  ]
]

-- The answer of a registration, and the table after it.
pub record Registers (subs : List SubscriptionRequest) (subscriber : Subscriber)
    (result : Reply SubscriberResponse × Application) : Type 0 where
  pub response : SubscriberResponse
  pub answers : result.0 ≡ replied 200 response
  pub entries :
      (q : Bytes)
      → map saying (entry subscriber.id q result.1.db.subscriptions)
        ≡ on_option (find (named requested q) subs) [] (λ r. asked r ∷ [])

-- The three steps of a registration, each answered.
sync_answer :
    {Value : Type 0} (ext : External Value) (subs : List SubscriptionRequest)
    (subscriber : Subscriber) (a : Application) (existing : List Subscription)
    (rows : List SubscriptionResponse)
    → in_db (list_subscriptions_for_subscriber subscriber.id) a ≡ (ok existing, a)
    → let result = sync_all ext subscriber.id (by_pattern [] existing) subs a in
      result.0 ≡ replied 200 rows
      → let cleared = delete_missing ext subs existing result.1 in
        cleared.0 ≡ replied 200 tt
        → sync ext subs subscriber a ≡ (
          replied 200 (subscriber_to_response ext subscriber rows),
          record (cleared.1) {
            subscription_cache = SubscriptionCache.flush cleared.1.subscription_cache;
          },
        )
unfolding sync
sync_answer ext subs subscriber a existing rows listed synced cleared =
    let index = by_pattern [] existing in
    let b = (sync_all ext subscriber.id index subs a).1 in
    let stored = in_db (list_subscriptions_for_subscriber subscriber.id) in
    and_then_goes (or_500 (codes "Failed to update subscriptions") stored) _ a
      (or_500_ok (codes "Failed to update subscriptions") stored a listed)
    ∙ (and_then_replied (sync_all ext subscriber.id index subs) _ a synced
        ∙ and_then_replied (delete_missing ext subs existing) _ b cleared)

-- When no query fails, the subscriber is stored, the ids of the subscriptions are unique, those
-- `NewV7` makes are new and distinct, and no two requests and no two subscriptions of the subscriber
-- have the same pattern, a registration is answered with 200. After it the subscriber has for each
-- requested pattern exactly one subscription, with the retries and the filter of the request, of
-- which `null` is none, and for any other pattern no subscription.
pub sync-Registers :
    {Value : Type 0} (ext : External Value)
    → ((j k : ℕ) → ext.new_v7 j ≡ ext.new_v7 k → j ≡ k)
    → (subs : List SubscriptionRequest) (subscriber : Subscriber) (a : Application)
    → IsReady ext subscriber.id a
    → AreApart requested subs
    → AreApart pattern_of (owned_by subscriber.id a.db.subscriptions)
    → Registers subs subscriber (sync ext subs subscriber a)
sync-Registers ext distinct subs subscriber a h apart stored_apart =
    let owner = subscriber.id in
    let existing = owned_by owner a.db.subscriptions in
    let index = by_pattern [] existing in
    let b = (sync_all ext owner index subs a).1 in
    let c = (delete_missing ext subs existing b).1 in
    let synced =
      sync_all-SyncedAll ext owner distinct index subs a h apart
        (requests-KnowsAll ext owner distinct a stored_apart subs) in
    let cleared =
      delete_missing-Cleared ext owner distinct subs existing b synced.ready stored_apart (
        alone-IsListed ext owner distinct a stored_apart subs b synced.entries existing
          (AreApart-IsAlone existing stored_apart)) in
    subst (Registers subs subscriber)
      (sym (
        sync_answer ext subs subscriber a existing synced.rows
          (list_stored ext owner distinct a h.up) synced.answers cleared.answers))
      (record {
        response = subscriber_to_response ext subscriber synced.rows;
        answers = refl;
        entries = λ q.
            ap (map saying) (cleared.entries q)
            ∙ registered ext owner distinct a stored_apart subs b synced.entries q
            ∙ wanted-asked (find (named requested q) subs);
      })
