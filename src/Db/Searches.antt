-- ===== src/Db/Searches.antt =====
-- The queries of queries/*.sql that the program has and does not call.
use mathlib.Core.List.{reverse}
use slurpee.Prelude.{
  ℕ, Bool, not, ◌&&◌, Option, List, leb, find, keep_if, update_if, map, if◌then◌else◌,
}
use slurpee.Prelude.Action.{Action, Result, ok}
use slurpee.Prelude.Int.{ℤ, pos, ltb_ℤ}
use slurpee.Prelude.Keys.{Bytes, ◌==◌, bytes_eq, nat_eq}
use slurpee.Prelude.Sort.{sort_by}
use slurpee.Model.{
  PgUuid, uuid_eq, Event, Subscriber, Subscription, DeliveryAttempt, AttemptStatus, ApiSecret,
}
use slurpee.Db.{Db, query, one_row}
use slurpee.Db.Listings.{Engine, newest_first, page_of, status_text}
use slurpee.Db.Pages.{associated}

-- The searches with one condition.
unfoldable pub search_events : Engine → (Event → Bool) → ℕ → ℤ → Action Db (Result (List Event))
unfolding newest_first page_of
search_events engine passes limit offset =
    query (λ db.
      (page_of limit offset (newest_first engine limit offset (keep_if passes db.events)), db))

-- SearchEventsBySubject
unfoldable pub search_events_by_subject : Engine → Bytes → ℕ → ℤ → Action Db (Result (List Event))
unfolding search_events
search_events_by_subject engine subject = search_events engine (λ e. e.subject == subject)

-- SearchEventsByDeliveryStatus
unfoldable pub search_events_by_delivery_status :
    Engine → Bytes → ℕ → ℤ → Action Db (Result (List Event))
unfolding search_events
search_events_by_delivery_status engine status =
    search_events engine (λ e. status_text e.delivery_status == status)

-- SearchEventsByDateRange
unfoldable pub search_events_by_date_range :
    Engine → ℤ → ℤ → ℕ → ℤ → Action Db (Result (List Event))
unfolding search_events
search_events_by_date_range engine start end =
    search_events engine
      (λ e. not (ltb_ℤ (pos e.timestamp) start) && not (ltb_ℤ end (pos e.timestamp)))

-- ListDeliveryAttemptsForSubscriber
unfoldable pub list_delivery_attempts_for_subscriber :
    PgUuid → Action Db (Result (List DeliveryAttempt))
list_delivery_attempts_for_subscriber id = query (λ db. (
  ok (
      sort_by (λ a b. leb a.attempted_at b.attempted_at)
        (keep_if (λ a. a.subscriber_id == id) db.delivery_attempts)),
  db,
))

-- UpdateDeliveryAttemptStatus
unfoldable pub update_delivery_attempt_status :
    AttemptStatus → Option ℕ → Bytes → Bytes → PgUuid → Action Db (Result DeliveryAttempt)
update_delivery_attempt_status status code headers body id = query (λ db.
    let rows =
      update_if (λ a. a.id == id)
        (λ a. record a {
          status = status;
          response_status_code = code;
          response_headers = headers;
          response_body = body;
        })
        db.delivery_attempts in
    (one_row (find (λ a. a.id == id) rows), record db { delivery_attempts = rows }))

-- GetSubscriberByEndpointURL
unfoldable pub get_subscriber_by_endpoint_url : Bytes → Action Db (Result Subscriber)
get_subscriber_by_endpoint_url url =
    query (λ db. (one_row (find (λ s. s.endpoint_url == url) db.subscribers), db))

-- ListAllApiSecretHashes
unfoldable pub list_all_api_secret_hashes : Action Db (Result (List (PgUuid × Bytes × Bytes)))
list_all_api_secret_hashes =
    query (λ db. (ok (map (λ s. (s.id, s.secret_hash, s.subject_pattern)) db.api_secrets), db))

-- ListApiSecretsForSubscriber: newest first.
unfoldable pub list_api_secrets_for_subscriber : PgUuid → Action Db (Result (List ApiSecret))
unfolding associated
list_api_secrets_for_subscriber id =
    query (λ db. (ok (keep_if (λ s. associated s.id id db) (reverse db.api_secrets)), db))

-- RemoveAllApiSecretSubscribers
unfoldable pub remove_all_api_secret_subscribers : PgUuid → Action Db (Result (Unit {0}))
remove_all_api_secret_subscribers id = query (λ db. (
  ok tt,
  record db { api_secret_subscribers = keep_if (λ p. not (p.0 == id)) db.api_secret_subscribers },
))

-- `replace(replace(pattern, '*', '%'), '?', '_')`
unfoldable pub like_pattern : Bytes → Bytes
like_pattern = map (λ c. if c == b'*' then b'%' else if c == b'?' then b'_' else c)

module _ (engine : Engine) where
  -- SearchEventsByDataContent
  unfoldable pub search_events_by_data_content : Bytes → ℕ → ℤ → Action Db (Result (List Event))
  unfolding search_events
  search_events_by_data_content filter =
      search_events engine (λ e. engine.contains_json e.content filter)

  -- GetSubscriptionsMatchingSubject
  unfoldable pub get_subscriptions_matching_subject : Bytes → Action Db (Result (List Subscription))
  get_subscriptions_matching_subject subject = query (λ db. (
    ok (keep_if (λ s. engine.like subject (like_pattern s.subject_pattern)) db.subscriptions),
    db,
  ))
