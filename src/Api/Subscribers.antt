-- ===== src/Api/Subscribers.antt =====
-- api/subscribers.go: the registration of a subscriber.
pub mod Directory
pub mod Deletion
pub mod Entries
pub mod Changes
pub mod Rows
pub mod Syncing
pub mod Patterns
pub mod Answers
pub mod Requests
pub mod Removals
pub mod Registration
use slurpee.Prelude.{
  ℕ, ◌-◌, ◌%◌, ◌^◌, Bool, not, ◌&&◌, ◌||◌, Option, none, List, [], ◌∷◌, ◌++◌, is_empty, ltb,
  contains_if, if◌then◌else◌,
}
use slurpee.Prelude.Action.{Action, pure, ◌>>=◌, ◌>>◌, gets, modify, on_option, on_result, Result}
use slurpee.Prelude.Int.{ℤ, pos, negsuc}
use slurpee.Prelude.Keys.{Bytes, codes, bytes_eq, ◌==◌, lookup, insert}
use slurpee.Model.{PgUuid, Subscriber, Subscription}
use slurpee.Db.Subscribers.{
  upsert_subscriber, list_subscriptions_for_subscriber, update_subscription, create_subscription,
  delete_subscription,
}
use slurpee.External.{External}
use slurpee.SubscriptionCache
use slurpee.App.{Application, in_db, draw_id}
use slurpee.Api.{replied, refused, Handler, refuse, reply}

pub record SubscriptionRequest : Type 0 where
  pub subject_pattern : Bytes
  -- The raw JSON, empty if absent.
  pub filter : Bytes
  pub max_retries : Option ℤ

pub record CreateSubscriberRequest : Type 0 where
  pub name : Bytes
  pub endpoint_url : Bytes
  pub auth_secret : Bytes
  pub max_parallel : Option ℤ
  -- `none` is nil.
  pub subscriptions : Option (List SubscriptionRequest)

pub record SubscriptionResponse : Type 0 where
  pub id : Bytes
  pub subject_pattern : Bytes
  pub filter : Bytes
  pub max_retries : Option ℤ
  pub created_at : ℕ
  pub updated_at : ℕ

pub record SubscriberResponse : Type 0 where
  pub id : Bytes
  pub name : Bytes
  pub endpoint_url : Bytes
  pub max_parallel : ℤ
  pub created_at : ℕ
  pub updated_at : ℕ
  pub subscriptions : List SubscriptionResponse

-- The check of `X-Slurpee-Admin-Secret`, and the handler behind it.
unfoldable pub admin_only : {A : Type 0} → Bytes → Handler A → Handler A
admin_only admin_secret go a =
    (if is_empty a.config.admin_secret || not (admin_secret == a.config.admin_secret)
        then refuse 401 (codes "Invalid or missing admin secret")
        else go)
      a

-- The conversion `int32(n)`.
unfoldable pub int32 : ℤ → ℤ
int32 (pos n) = let m = n % 2 ^ 32 in if ltb m (2 ^ 31) then pos m else negsuc (2 ^ 32 - 1 - m)
int32 (negsuc n) = let m = n % 2 ^ 32 in if ltb m (2 ^ 31) then negsuc m else pos (2 ^ 32 - 1 - m)

-- The handler goes on with the answer, or stops with the refusal.
unfoldable pub and_then : {A B : Type 0} → Handler A → (A → Handler B) → Handler B
and_then m go = do
  r ← m
  elim r [ refused code text ↦ pure (refused code text) | replied code a ↦ go a ]

-- A query whose error is answered with 500.
unfoldable pub or_500 : {A : Type 0} → Bytes → Action Application (Result A) → Handler A
or_500 text m = do r ← m; on_result r (λ e. refuse 500 text) (λ a. reply 200 a)

-- `filter` of the loop: `null` is no filter.
unfoldable pub filter_of : Bytes → Bytes
filter_of raw = if not (is_empty raw) && not (raw == codes "null") then raw else []

-- `existingByPattern`
unfoldable pub by_pattern :
    List (Bytes × Subscription) → List Subscription → List (Bytes × Subscription)
by_pattern m [] = m
by_pattern m (s ∷ rest) = by_pattern (insert s.subject_pattern s m) rest

unfoldable pub empty_pattern : List SubscriptionRequest → Bool
empty_pattern subs = contains_if (λ s. is_empty s.subject_pattern) subs

module _ {Value : Type 0} (ext : External Value) where
  -- `subscriptionToResponse`
  unfoldable pub subscription_to_response : Subscription → SubscriptionResponse
  subscription_to_response s = record {
    id = ext.uuid_string s.id.bytes;
    subject_pattern = s.subject_pattern;
    filter = s.filter;
    max_retries = s.max_retries;
    created_at = s.created_at;
    updated_at = s.updated_at;
  }

  -- `subscriberToResponse`
  unfoldable pub subscriber_to_response :
      Subscriber → List SubscriptionResponse → SubscriberResponse
  subscriber_to_response s subs = record {
    id = ext.uuid_string s.id.bytes;
    name = s.name;
    endpoint_url = s.endpoint_url;
    max_parallel = s.max_parallel;
    created_at = s.created_at;
    updated_at = s.updated_at;
    subscriptions = subs;
  }

  unfoldable pub create_new : PgUuid → SubscriptionRequest → Handler Subscription
  unfolding or_500
  create_new subscriber_id sub = do
    id ← draw_id ext
    or_500 (codes "Failed to create subscription") (
        in_db (
          create_subscription (record {
            id = id;
            subscriber_id = subscriber_id;
            subject_pattern = sub.subject_pattern;
            filter = filter_of sub.filter;
            max_retries = sub.max_retries;
          })))

  -- One round of the loop over the requested subscriptions.
  unfoldable pub sync_one :
      PgUuid → List (Bytes × Subscription) → SubscriptionRequest → Handler Subscription
  unfolding create_new filter_of
  sync_one subscriber_id existing sub =
      on_option (lookup sub.subject_pattern existing) (create_new subscriber_id sub) λ old.
        or_500 (codes "Failed to update subscription")
          (in_db (update_subscription old.id (filter_of sub.filter) sub.max_retries))

  unfoldable pub sync_all :
      PgUuid
      → List (Bytes × Subscription)
      → List SubscriptionRequest
      → Handler (List SubscriptionResponse)
  unfolding sync_one and_then subscription_to_response
  sync_all subscriber_id existing [] = reply 200 []
  sync_all subscriber_id existing (sub ∷ rest) =
      and_then (sync_one subscriber_id existing sub) λ row.
        and_then (sync_all subscriber_id existing rest)
          λ rows. reply 200 (subscription_to_response row ∷ rows)

  -- The loop that deletes what the request no longer names.
  unfoldable pub delete_missing : List SubscriptionRequest → List Subscription → Handler (Unit {0})
  unfolding and_then or_500
  delete_missing subs [] = reply 200 tt
  delete_missing subs (s ∷ rest) =
      if contains_if (λ r. r.subject_pattern == s.subject_pattern) subs
      then delete_missing subs rest
      else and_then
          (or_500 (codes "Failed to delete subscription") (in_db (delete_subscription s.id)))
          λ _. delete_missing subs rest

  -- `createSubscriberHandler`, once the subscriber is stored.
  unfoldable pub sync : List SubscriptionRequest → Subscriber → Handler SubscriberResponse
  unfolding sync_all delete_missing by_pattern subscriber_to_response
  sync subs subscriber =
      and_then
        (or_500 (codes "Failed to update subscriptions")
          (in_db (list_subscriptions_for_subscriber subscriber.id)))
        λ existing. and_then (sync_all subscriber.id (by_pattern [] existing) subs) λ rows.
          and_then (delete_missing subs existing) λ _. do
            modify (λ a. record a {
              subscription_cache = SubscriptionCache.flush a.subscription_cache;
            })
            reply 200 (subscriber_to_response subscriber rows)

  -- `createSubscriberHandler` behind its checks.
  unfoldable pub upsert_and_sync :
      CreateSubscriberRequest → List SubscriptionRequest → Handler SubscriberResponse
  unfolding sync int32
  upsert_and_sync req subs = do
    configured ← gets (λ a. a.config.max_parallel)
    id ← draw_id ext
    and_then
        (or_500 (codes "Failed to create/update subscriber") (
          in_db (
            upsert_subscriber (record {
              id = id;
              name = req.name;
              endpoint_url = req.endpoint_url;
              auth_secret = req.auth_secret;
              max_parallel = on_option req.max_parallel (int32 configured) (λ n. n);
            }))))
        (sync subs)

  unfoldable pub create_subscriber : CreateSubscriberRequest → Handler SubscriberResponse
  unfolding upsert_and_sync empty_pattern
  create_subscriber req =
      if is_empty req.name
      then refuse 400 (codes "name is required")
      else if is_empty req.endpoint_url
      then refuse 400 (codes "endpoint_url is required")
      else if is_empty req.auth_secret
      then refuse 400 (codes "auth_secret is required")
      else on_option req.subscriptions (refuse 400 (codes "subscriptions is required")) λ subs.
        if empty_pattern subs
        then refuse 400 (codes "subject_pattern is required for each subscription")
        else upsert_and_sync req subs

  -- `createSubscriberHandler`
  unfoldable pub create_subscriber_handler :
      Bytes → Option CreateSubscriberRequest → Handler SubscriberResponse
  unfolding create_subscriber admin_only
  create_subscriber_handler admin_secret request =
      admin_only admin_secret
        (on_option request (refuse 400 (codes "Invalid request body")) create_subscriber)
