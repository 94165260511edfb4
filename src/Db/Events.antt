-- ===== src/Db/Events.antt =====
-- queries/events.sql and queries/delivery_attempts.sql
use slurpee.Prelude.{
  ℕ, ◌+◌, Bool, true, false, ◌&&◌, ◌||◌, some, List, [], ◌∷◌, ◌++◌, leb, find, keep_if, contains_if,
  update_if, if◌then◌else◌,
}
use slurpee.Prelude.Action.{Action, Result, ok, err, other}
use slurpee.Prelude.Keys.{◌==◌, nat_eq}
use slurpee.Model.{
  PgUuid, uuid_eq, Event, DeliveryAttempt, DeliveryStatus, pending, partial, AttemptStatus,
  attempt_succeeded, attempt_failed,
}
use slurpee.Db.{Db, query, one_row}

unfoldable pub has_event : PgUuid → List Event → Bool
has_event id events = contains_if (λ e. e.id == id) events

-- GetEventByID
unfoldable pub get_event_by_id : PgUuid → Action Db (Result Event)
get_event_by_id id = query (λ db. (one_row (find (λ e. e.id == id) db.events), db))

-- InsertEvent. The primary key refuses a second event of one id.
unfoldable pub insert_event : Event → Action Db (Result Event)
insert_event event = query (λ db.
    if has_event event.id db.events
    then (err other, db)
    else (ok event, record db { events = db.events ++ event ∷ [] }))

unfoldable pub set_status : DeliveryStatus → ℕ → ℕ → Event → Event
set_status status retry_count at e = record e {
  delivery_status = status;
  retry_count = retry_count;
  status_updated_at = some at;
}

-- UpdateEventDeliveryStatus
unfoldable pub update_event_delivery_status :
    DeliveryStatus → ℕ → ℕ → PgUuid → Action Db (Result Event)
update_event_delivery_status status retry_count at id = query (λ db.
    let events = update_if (λ e. e.id == id) (set_status status retry_count at) db.events in
    (one_row (find (λ e. e.id == id) events), record db { events = events }))

abbrev pub is_pending : DeliveryStatus → Bool
is_pending pending = true
is_pending _ = false

abbrev pub is_partial : DeliveryStatus → Bool
is_partial partial = true
is_partial _ = false

-- ORDER BY timestamp ASC, the earlier row first among equals.
insert_by_timestamp : Event → List Event → List Event
insert_by_timestamp e [] = e ∷ []
insert_by_timestamp e (f ∷ fs) =
    let rest = insert_by_timestamp e fs in
    if leb e.timestamp f.timestamp then e ∷ f ∷ fs else f ∷ rest

sort_by_timestamp : List Event → List Event
sort_by_timestamp [] = []
sort_by_timestamp (e ∷ es) = insert_by_timestamp e (sort_by_timestamp es)

-- GetResumableEvents
unfoldable pub get_resumable_events : Action Db (Result (List Event))
unfolding sort_by_timestamp insert_by_timestamp
get_resumable_events = query (λ db. (
  ok (
      sort_by_timestamp
        (keep_if (λ e. is_pending e.delivery_status || is_partial e.delivery_status) db.events)),
  db,
))

-- InsertDeliveryAttempt. The row must be new, and its event and subscriber must exist.
unfoldable pub insert_delivery_attempt : DeliveryAttempt → Action Db (Result DeliveryAttempt)
insert_delivery_attempt a = query (λ db.
    if contains_if (λ b. b.id == a.id) db.delivery_attempts
    then (err other, db)
    else if has_event a.event_id db.events
        && contains_if (λ s. s.id == a.subscriber_id) db.subscribers
    then (ok a, record db { delivery_attempts = db.delivery_attempts ++ a ∷ [] })
    else (err other, db))

pub record DeliverySummary : Type 0 where
  pub subscriber_id : PgUuid
  pub failed_count : ℕ
  pub succeeded_count : ℕ

abbrev pub count_attempt : AttemptStatus → DeliverySummary → DeliverySummary
count_attempt attempt_failed s = record s { failed_count = s.failed_count + 1 }
count_attempt attempt_succeeded s = record s { succeeded_count = s.succeeded_count + 1 }

-- GROUP BY subscriber_id, one attempt at a time.
unfoldable pub add_to_summary : DeliveryAttempt → List DeliverySummary → List DeliverySummary
add_to_summary a [] =
    count_attempt a.status
      (record { subscriber_id = a.subscriber_id; failed_count = 0; succeeded_count = 0 })
    ∷ []
add_to_summary a (s ∷ rest) =
    if s.subscriber_id == a.subscriber_id
    then count_attempt a.status s ∷ rest
    else s ∷ add_to_summary a rest

unfoldable pub summarize : List DeliveryAttempt → List DeliverySummary
summarize [] = []
summarize (a ∷ rest) = add_to_summary a (summarize rest)

-- GetDeliverySummaryForEvent
unfoldable pub get_delivery_summary_for_event : PgUuid → Action Db (Result (List DeliverySummary))
get_delivery_summary_for_event event_id =
    query (λ db. (ok (summarize (keep_if (λ a. a.event_id == event_id) db.delivery_attempts)), db))
