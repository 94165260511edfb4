-- ===== src/Db/Subscribers.antt =====
-- queries/subscribers.sql
use mathlib.Core.List.{reverse}
use slurpee.Prelude.{
  ℕ, ◌&&◌, not, Option, List, [], ◌∷◌, ◌++◌, find, keep_if, contains_if, update_if, if◌then◌else◌,
}
use slurpee.Prelude.Action.{Action, Result, ok, err, other}
use slurpee.Prelude.Int.{ℤ}
use slurpee.Prelude.Keys.{Bytes, ◌==◌, bytes_eq}
use slurpee.Model.{PgUuid, uuid_eq, Subscriber, Subscription}
use slurpee.Db.{Db, query, one_row}

-- ListSubscribers: newest first.
unfoldable pub list_subscribers : Action Db (Result (List Subscriber))
list_subscribers = query (λ db. (ok (reverse db.subscribers), db))

-- ListAllSubscriptions
unfoldable pub list_all_subscriptions : Action Db (Result (List Subscription))
list_all_subscriptions = query (λ db. (ok db.subscriptions, db))

-- GetSubscriberByID
unfoldable pub get_subscriber_by_id : PgUuid → Action Db (Result Subscriber)
get_subscriber_by_id id = query (λ db. (one_row (find (λ s. s.id == id) db.subscribers), db))

unfoldable pub owned_by : PgUuid → List Subscription → List Subscription
owned_by id = keep_if (λ s. s.subscriber_id == id)

-- ListSubscriptionsForSubscriber
unfoldable pub list_subscriptions_for_subscriber : PgUuid → Action Db (Result (List Subscription))
list_subscriptions_for_subscriber id = query (λ db. (ok (owned_by id db.subscriptions), db))

pub record UpsertSubscriberParams : Type 0 where
  pub id : PgUuid
  pub name : Bytes
  pub endpoint_url : Bytes
  pub auth_secret : Bytes
  pub max_parallel : ℤ

abbrev new_subscriber : UpsertSubscriberParams → ℕ → Subscriber
new_subscriber p now = record {
  id = p.id;
  name = p.name;
  endpoint_url = p.endpoint_url;
  auth_secret = p.auth_secret;
  max_parallel = p.max_parallel;
  created_at = now;
  updated_at = now;
}

abbrev overwrite_subscriber : UpsertSubscriberParams → ℕ → Subscriber → Subscriber
overwrite_subscriber p now s = record s {
  name = p.name;
  auth_secret = p.auth_secret;
  max_parallel = p.max_parallel;
  updated_at = now;
}

-- UpsertSubscriber: the conflict target is `endpoint_url`; a clash of ids is an error.
unfoldable pub upsert_subscriber : UpsertSubscriberParams → Action Db (Result Subscriber)
upsert_subscriber p = query (λ db.
    let same_url = λ (s : Subscriber). s.endpoint_url == p.endpoint_url in
    let rows = update_if same_url (overwrite_subscriber p db.now) db.subscribers in
    let row = new_subscriber p db.now in
    if contains_if same_url db.subscribers
    then (one_row (find same_url rows), record db { subscribers = rows })
    else if contains_if (λ s. s.id == p.id) db.subscribers
    then (err other, db)
    else (ok row, record db { subscribers = db.subscribers ++ row ∷ [] }))

pub record CreateSubscriptionParams : Type 0 where
  pub id : PgUuid
  pub subscriber_id : PgUuid
  pub subject_pattern : Bytes
  pub filter : Bytes
  pub max_retries : Option ℤ

abbrev pub new_subscription : CreateSubscriptionParams → ℕ → Subscription
new_subscription p now = record {
  id = p.id;
  subscriber_id = p.subscriber_id;
  subject_pattern = p.subject_pattern;
  filter = p.filter;
  max_retries = p.max_retries;
  created_at = now;
  updated_at = now;
}

-- CreateSubscription. The id must be new and the subscriber must exist.
unfoldable pub create_subscription : CreateSubscriptionParams → Action Db (Result Subscription)
create_subscription p = query (λ db.
    let row = new_subscription p db.now in
    if contains_if (λ s. s.id == p.id) db.subscriptions
    then (err other, db)
    else if contains_if (λ s. s.id == p.subscriber_id) db.subscribers
    then (ok row, record db { subscriptions = db.subscriptions ++ row ∷ [] })
    else (err other, db))

-- UpdateSubscription
unfoldable pub update_subscription : PgUuid → Bytes → Option ℤ → Action Db (Result Subscription)
update_subscription id filter max_retries = query (λ db.
    let rows =
      update_if (λ s. s.id == id)
        (λ s. record s { filter = filter; max_retries = max_retries; updated_at = db.now })
        db.subscriptions in
    (one_row (find (λ s. s.id == id) rows), record db { subscriptions = rows }))

-- DeleteSubscription
unfoldable pub delete_subscription : PgUuid → Action Db (Result (Unit {0}))
delete_subscription id =
    query (λ db.
      (ok tt, record db { subscriptions = keep_if (λ s. not (s.id == id)) db.subscriptions }))

-- DeleteSubscriptionsForSubscriber
unfoldable pub delete_subscriptions_for_subscriber : PgUuid → Action Db (Result (Unit {0}))
delete_subscriptions_for_subscriber id = query (λ db. (
  ok tt,
  record db { subscriptions = keep_if (λ s. not (s.subscriber_id == id)) db.subscriptions },
))

-- DeleteSubscriber. `delivery_attempts.subscriber_id` has no ON DELETE clause, so a recorded
-- attempt keeps its subscriber from being deleted; the other two references cascade.
unfoldable pub delete_subscriber : PgUuid → Action Db (Result (Unit {0}))
delete_subscriber id = query (λ db.
    if contains_if (λ s. s.id == id) db.subscribers
      && contains_if (λ a. a.subscriber_id == id) db.delivery_attempts
    then (err other, db)
    else (
      ok tt,
      record db {
        subscribers = keep_if (λ s. not (s.id == id)) db.subscribers;
        subscriptions = keep_if (λ s. not (s.subscriber_id == id)) db.subscriptions;
        api_secret_subscribers = keep_if (λ p. not (p.1 == id)) db.api_secret_subscribers;
      },
    ))
