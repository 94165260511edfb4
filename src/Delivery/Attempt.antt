-- ===== src/Delivery/Attempt.antt =====
-- One delivery attempt, and the writes to the event's row: `updateEventStatus`,
-- `deliverToSubscriber`, `recordFailedAttempt`, `ReplayToSubscriber` and `PublishCreatedEvent` of
-- app/delivery.go. What the HTTP client does with a request is the environment's choice, and comes
-- in as a `PostOutcome`.
use slurpee.Prelude.{
  ℕ, zero, suc, Bool, true, false, ◌||◌, none, some, List, [], ◌∷◌, ◌++◌, ltb, leb, if◌then◌else◌,
}
use slurpee.Prelude.Action.{Action, pure, ◌>>=◌, ◌>>◌, gets, on_result}
use slurpee.Prelude.Keys.{Bytes, codes}
use slurpee.Model.{
  PgUuid, Event, Subscriber, DeliveryStatus, pending, delivered, failed, AttemptStatus,
  attempt_succeeded, attempt_failed, DeliveryAttempt,
}
use slurpee.Db.Events.{update_event_delivery_status, insert_delivery_attempt}
use slurpee.EventBus.{BusMessage, created, status_changed, delivery_attempt}
use slurpee.External.{External}
use slurpee.App.{Application, in_db, publish, draw_id}

pub data PostOutcome : Type 0 where
  -- http.NewRequestWithContext failed, with the error's text.
  not_created : Bytes → PostOutcome
  -- client.Do failed: no connection, a timeout, and so on.
  not_answered : Bytes → PostOutcome
  -- The status code, the headers as JSON, and the body.
  answered : ℕ → Bytes → Bytes → PostOutcome

-- 1024 * 1024
abbrev max_body : ℕ
max_body = 1048576

-- io.LimitReader
limit_body : ℕ → Bytes → Bytes
limit_body zero body = []
limit_body (suc n) [] = []
limit_body (suc n) (b ∷ body) = b ∷ limit_body n body

abbrev pub is_success : AttemptStatus → Bool
is_success attempt_succeeded = true
is_success attempt_failed = false

-- `status` of `deliverToSubscriber`
unfoldable pub attempt_status_of : ℕ → AttemptStatus
attempt_status_of code = if ltb code 200 || leb 300 code then attempt_failed else attempt_succeeded

module _ {Value : Type 0} (ext : External Value) where
  open ext use {uuid_string, marshal_headers}

  -- `updateEventStatus`
  unfoldable pub update_event_status : PgUuid → ℕ → DeliveryStatus → Action Application (Unit {0})
  update_event_status id retry_count status = do
    now ← gets (λ a. a.now)
    updated ← in_db (update_event_delivery_status status retry_count now id)
    on_result updated (λ e. pure tt)
        λ _. publish (record {
          id = 0;
          kind = status_changed;
          event_id = uuid_string id.bytes;
          subject = [];
          delivery_status = status;
          timestamp = some now;
          properties = [];
          subscriber_endpoint = [];
          attempt_status = none;
          response_status_code = 0;
        })

  request_headers : Event → Subscriber → Bytes
  request_headers event subscriber = marshal_headers (
      (codes "Content-Type", codes "application/json")
      ∷ (codes "X-Slurpee-Secret", subscriber.auth_secret)
      ∷ (codes "X-Event-ID", uuid_string event.id.bytes)
      ∷ (codes "X-Event-Subject", event.subject)
      ∷ [])

  attempt_message : Event → Subscriber → AttemptStatus → ℕ → ℕ → BusMessage
  attempt_message event subscriber status code now = record {
    id = 0;
    kind = delivery_attempt;
    event_id = uuid_string event.id.bytes;
    subject = event.subject;
    delivery_status = event.delivery_status;
    timestamp = some now;
    properties = [];
    subscriber_endpoint = subscriber.endpoint_url;
    attempt_status = some status;
    response_status_code = code;
  }

  -- The row of an attempt. The writes of a failed insertion are lost, and the code goes on.
  insert_attempt : DeliveryAttempt → Action Application (Unit {0})
  insert_attempt attempt = do
    inserted ← in_db (insert_delivery_attempt attempt)
    on_result inserted (λ e. pure tt) (λ _. pure tt)

  -- `recordFailedAttempt`
  unfoldable pub record_failed_attempt :
      PgUuid → Event → Subscriber → Bytes → ℕ → Bytes → Action Application (Unit {0})
  unfolding insert_attempt attempt_message
  record_failed_attempt id event subscriber headers at message = do
    insert_attempt (record {
      id = id;
      event_id = event.id;
      subscriber_id = subscriber.id;
      endpoint_url = subscriber.endpoint_url;
      attempted_at = at;
      request_headers = headers;
      response_status_code = none;
      response_headers = [];
      response_body = message;
      status = attempt_failed;
    })
    publish (attempt_message event subscriber attempt_failed 0 at)

  -- `deliverToSubscriber` once the outcome of the request is known.
  unfoldable pub conclude : PgUuid → Event → Subscriber → ℕ → PostOutcome → Action Application Bool
  unfolding record_failed_attempt attempt_status_of limit_body request_headers
  conclude id event subscriber now (not_created e) = do
    record_failed_attempt id event subscriber (request_headers event subscriber) now
        (codes "request creation failed: " ++ e)
    pure false
  conclude id event subscriber now (not_answered e) = do
    record_failed_attempt id event subscriber (request_headers event subscriber) now
        (codes "request failed: " ++ e)
    pure false
  conclude id event subscriber now (answered code headers body) = do
    let status = attempt_status_of code
    insert_attempt (record {
      id = id;
      event_id = event.id;
      subscriber_id = subscriber.id;
      endpoint_url = subscriber.endpoint_url;
      attempted_at = now;
      request_headers = request_headers event subscriber;
      response_status_code = some code;
      response_headers = headers;
      response_body = limit_body max_body body;
      status = status;
    })
    publish (attempt_message event subscriber status code now)
    pure (is_success status)

  -- `deliverToSubscriber`. The attempt number only shows in the log.
  unfoldable pub deliver_to_subscriber : Event → Subscriber → PostOutcome → Action Application Bool
  unfolding conclude
  deliver_to_subscriber event subscriber outcome = do
    id ← draw_id ext
    now ← gets (λ a. a.now)
    conclude id event subscriber now outcome

  -- `ReplayToSubscriber`
  unfoldable pub replay_to_subscriber :
      Event → Subscriber → PostOutcome → Action Application (Unit {0})
  unfolding update_event_status deliver_to_subscriber
  replay_to_subscriber event subscriber outcome = do
    update_event_status event.id event.retry_count pending
    succeeded ← deliver_to_subscriber event subscriber outcome
    update_event_status event.id event.retry_count (if succeeded then delivered else failed)

  -- `PublishCreatedEvent`
  unfoldable pub publish_created_event :
      Event → List (Bytes × Bytes) → Action Application (Unit {0})
  publish_created_event event props = publish (record {
    id = 0;
    kind = created;
    event_id = uuid_string event.id.bytes;
    subject = event.subject;
    delivery_status = event.delivery_status;
    timestamp = some event.timestamp;
    properties = props;
    subscriber_endpoint = [];
    attempt_status = none;
    response_status_code = 0;
  })
