-- ===== src/Api/Subscribers/Deletion.antt =====
-- What `DELETE /subscribers/{id}` leaves behind, with and without recorded attempts.
use slurpee.Prelude.{
  ◌≡◌, ◌∙◌, refl, ap, Bool, true, not, some, List, [], ◌∷◌, find, keep_if, contains_if, arith,
  if◌then◌else◌, Bool-cases, inl, inr,
}
use slurpee.Prelude.Action.{ok, err, other}
use slurpee.Prelude.Keys.{codes, ◌==◌}
use slurpee.Model.{PgUuid, uuid_eq, Subscriber, Subscription}
use slurpee.Db.{Db, query_idle, one_row}
use slurpee.Db.Subscribers.{
  get_subscriber_by_id, delete_subscriptions_for_subscriber, delete_subscriber,
}
use slurpee.External.{External}
use slurpee.SubscriptionCache
use slurpee.App.{Application, in_db}
use slurpee.Api.{replied, refused}
use slurpee.Api.Subscribers.Directory.{delete_by_id}

-- The tables behind a deletion of the subscriptions, and behind that of the subscriber.
abbrev without_subscriptions : PgUuid → Db → Db
without_subscriptions id db = record db {
  subscriptions = keep_if (λ s. not (s.subscriber_id == id)) db.subscriptions;
}

abbrev without_subscriber : PgUuid → Db → Db
without_subscriber id db = record db {
  subscribers = keep_if (λ s. not (s.id == id)) db.subscribers;
  subscriptions = keep_if (λ s. not (s.subscriber_id == id)) db.subscriptions;
  api_secret_subscribers = keep_if (λ p. not (p.1 == id)) db.api_secret_subscribers;
}

abbrev pub attempted : PgUuid → Db → Bool
attempted id db = contains_if (λ a. a.subscriber_id == id) db.delivery_attempts

lookup_idle :
    (id : PgUuid) (db : Db) (s : Subscriber)
    → db.outages ≡ []
    → find (λ s. s.id == id) db.subscribers ≡ some s
    → get_subscriber_by_id id db ≡ (ok s, db)
unfolding get_subscriber_by_id
lookup_idle id db s up has =
    query_idle (λ d. (one_row (find (λ s. s.id == id) d.subscribers), d)) db up
    ∙ ap (λ o. (one_row o, db)) has

clear_idle :
    (id : PgUuid) (db : Db)
    → db.outages ≡ []
    → delete_subscriptions_for_subscriber id db ≡ (ok tt, without_subscriptions id db)
unfolding delete_subscriptions_for_subscriber
clear_idle id db up = query_idle _ db up

delete_idle :
    (id : PgUuid) (db : Db)
    → db.outages ≡ []
    → contains_if (λ s. s.id == id) db.subscribers ≡ true
    → delete_subscriber id db
      ≡ (if attempted id db then (err other, db) else (ok tt, without_subscriber id db))
unfolding delete_subscriber
delete_idle id db up known = query_idle _ db up ∙ rw known refl

find-contains_if :
    (id : PgUuid) (rows : List Subscriber) (s : Subscriber)
    → find (λ s. s.id == id) rows ≡ some s
    → contains_if (λ s. s.id == id) rows ≡ true
unfolding find contains_if
find-contains_if id [] s h = cc
find-contains_if id (x ∷ rows) s h = ground (arith, find-contains_if id rows s)

keep_if_twice :
    (test : Subscription → Bool) (rows : List Subscription)
    → keep_if test (keep_if test rows) ≡ keep_if test rows
unfolding keep_if
keep_if_twice test [] = refl
keep_if_twice test (x ∷ rows) = elim (Bool-cases (test x)) [
  | inl kept ↦ rw (kept, kept) (ap (λ l. x ∷ l) (keep_if_twice test rows))
  | inr dropped ↦ rw dropped (keep_if_twice test rows)
]

module _ {Value : Type 0} (ext : External Value) where
  -- Deleting a subscriber that exists, while the database answers, removes its subscriptions in
  -- every case. Without a recorded delivery attempt the subscriber goes too, the cache of
  -- subscriptions is flushed, and the answer is 204. With one the answer is 500: the subscriber
  -- stays, without its subscriptions, and the cache is not flushed.
  pub delete_by_id_outcome :
      (id : PgUuid) (a : Application) (s : Subscriber)
      → a.db.outages ≡ []
      → find (λ s. s.id == id) a.db.subscribers ≡ some s
      → let (answer, b) = delete_by_id ext id a in
        (b.db.subscriptions ≡ keep_if (λ s. not (s.subscriber_id == id)) a.db.subscriptions)
        × (if attempted id a.db
            then (answer ≡ refused 500 (codes "Failed to delete subscriber"))
              × (b.db.subscribers ≡ a.db.subscribers)
              × (b.subscription_cache ≡ a.subscription_cache)
            else (answer ≡ replied 204 tt)
              × (b.db.subscribers ≡ keep_if (λ s. not (s.id == id)) a.db.subscribers)
              × (b.subscription_cache ≡ SubscriptionCache.flush a.subscription_cache))
  unfolding delete_by_id in_db
  delete_by_id_outcome id a s up has =
      let known = find-contains_if id a.db.subscribers s has in
      elim (Bool-cases (attempted id a.db)) [
        | inl held ↦
            rw (lookup_idle id a.db s up has, clear_idle id a.db up)
              (rw (delete_idle id (without_subscriptions id a.db) up known)
                (rw held (refl, (refl, refl, refl))))
        | inr free ↦
            rw (lookup_idle id a.db s up has, clear_idle id a.db up)
              (rw (delete_idle id (without_subscriptions id a.db) up known)
                (rw free (keep_if_twice _ a.db.subscriptions, (refl, refl, refl))))
      ]
