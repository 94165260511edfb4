-- ===== src/SubscriptionCache.antt =====
-- app/subscription_cache.go: all subscribers and subscriptions in memory, loaded at the first use
-- after a flush. `load` and the read behind it take the lock one after the other, so they are two
-- steps, and a flush by another goroutine can come between them.
pub mod Current
use slurpee.Prelude.{
  ℕ, Bool, true, false, Option, none, some, List, [], ◌∷◌, keep_if, if◌then◌else◌,
}
use slurpee.Prelude.Action.{Action, pure, ◌>>=◌, Result, ok, err, no_rows, on_result}
use slurpee.Prelude.Keys.{Bytes, nat_eq, lookup, insert}
use slurpee.Glob.{subscription_matches}
use slurpee.Model.{PgUuid, Subscriber, Subscription}
use slurpee.Db.{Db}
use slurpee.Db.Subscribers.{list_subscribers, list_all_subscriptions}

pub record SubscriptionCache : Type 0 where
  pub loaded : Bool
  -- Keyed by the bytes of the id.
  pub subscribers : List (ℕ × Subscriber)
  pub subscriptions : List Subscription

unfoldable pub new_subscription_cache : SubscriptionCache
new_subscription_cache = record { loaded = false; subscribers = []; subscriptions = [] }

-- `Flush`
unfoldable pub flush : SubscriptionCache → SubscriptionCache
flush c = record c { loaded = false; subscribers = []; subscriptions = [] }

-- `for _, s := range subscribers { c.subscribers[s.ID.Bytes] = s }`
unfoldable pub by_id : List (ℕ × Subscriber) → List Subscriber → List (ℕ × Subscriber)
by_id m [] = m
by_id m (s ∷ rest) = by_id (insert s.id.bytes s m) rest

-- The cache and the database that it reads.
abbrev pub Cached : Type 0
Cached = SubscriptionCache × Db

unfoldable pub from_db : {A : Type 0} → Action Db A → Action Cached A
from_db m (c, db) = let (a, db') = m db in (a, (c, db'))

abbrev pub fill : List Subscriber → List Subscription → Action Cached (Result (Unit {0}))
fill subscribers subscriptions (c, db) = (
  ok tt,
  (record { loaded = true; subscribers = by_id [] subscribers; subscriptions = subscriptions }, db),
)

-- The part of `load` under the write lock.
unfoldable pub load_all : Action Cached (Result (Unit {0}))
load_all = do
  subscribers ← from_db list_subscribers
  on_result subscribers (λ e. pure (err e))
      λ subs. do
        subscriptions ← from_db list_all_subscriptions
        on_result subscriptions (λ e. pure (err e)) (fill subs)

-- `load`
unfoldable pub load : Action Cached (Result (Unit {0}))
unfolding load_all
load (c, db) = if c.loaded then (ok tt, (c, db)) else load_all (c, db)

-- The read of `GetMatchingSubscriptions` behind its `load`.
unfoldable pub read_matching : Bytes → SubscriptionCache → List Subscription
read_matching subject c =
    keep_if (λ s. subscription_matches s.subject_pattern subject) c.subscriptions

-- The read of `GetSubscriberByID` behind its `load`.
unfoldable pub read_subscriber : PgUuid → SubscriptionCache → Option Subscriber
read_subscriber id c = lookup id.bytes c.subscribers

unfoldable pub get_matching_subscriptions : Bytes → Action Cached (Result (List Subscription))
unfolding load read_matching
get_matching_subscriptions subject = do
  loaded ← load
  on_result loaded (λ e. pure (err e)) λ _ (c, db). (ok (read_matching subject c), (c, db))

unfoldable pub or_missing : Option Subscriber → Result Subscriber
or_missing none = err no_rows
or_missing (some s) = ok s

unfoldable pub get_subscriber_by_id : PgUuid → Action Cached (Result Subscriber)
unfolding load read_subscriber or_missing
get_subscriber_by_id id = do
  loaded ← load
  on_result loaded (λ e. pure (err e)) λ _ (c, db). (or_missing (read_subscriber id c), (c, db))
