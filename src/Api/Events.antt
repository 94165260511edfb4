-- ===== src/Api/Events.antt =====
-- api/events.go
pub mod Effects
pub mod Storing
pub mod Acceptance
use mathlib.Core.Option
use slurpee.Prelude.{
  ℕ, Bool, true, false, not, Option, none, some, List, [], ◌∷◌, is_empty, if◌then◌else◌,
}
use slurpee.Prelude.Action.{
  Action, pure, ◌>>=◌, ◌>>◌, gets, on_option, on_result, DbError, no_rows, other,
}
use slurpee.Prelude.Keys.{Bytes, codes}
use slurpee.Model.{PgUuid, pg_uuid, Event, DeliveryStatus, pending, ApiSecret}
use slurpee.Db.Events.{insert_event, get_event_by_id}
use slurpee.External.{External}
use slurpee.Glob.{check_send_scope}
use slurpee.App.{Application, in_db, send_to_delivery, draw_id}
use slurpee.Secrets.{Validation, valid, secret_not_found, invalid_secret, validate_secret_by_id}
use slurpee.LogProperties.{Properties, extract_log_properties}
use slurpee.LogProperties.Extraction.{entries}
use slurpee.Delivery.Attempt.{publish_created_event}
use slurpee.Api.{Reply, Handler, refuse, reply}

pub record CreateEventRequest : Type 0 where
  pub id : Option Bytes
  pub subject : Bytes
  pub content : Bytes
  pub trace_id : Option Bytes
  pub timestamp : Option ℕ

pub record EventResponse : Type 0 where
  pub id : Bytes
  pub subject : Bytes
  pub timestamp : ℕ
  pub trace_id : Option Bytes
  pub content : Bytes
  pub retry_count : ℕ
  pub delivery_status : DeliveryStatus
  pub status_updated_at : Option ℕ

abbrev null_uuid : PgUuid
null_uuid = record { bytes = 0; valid = false }

abbrev or_now : Option ℕ → ℕ → ℕ
or_now none now = now
or_now (some t) now = t

module _ {Value : Type 0} (ext : External Value) where
  -- `eventToResponse`
  unfoldable pub event_to_response : Event → EventResponse
  event_to_response e = record {
    id = ext.uuid_string e.id.bytes;
    subject = e.subject;
    timestamp = e.timestamp;
    trace_id = if e.trace_id.valid then some (ext.uuid_string e.trace_id.bytes) else none;
    content = e.content;
    retry_count = e.retry_count;
    delivery_status = e.delivery_status;
    status_updated_at = e.status_updated_at;
  }

  unfoldable pub if_valid : {A : Type 0} → Validation → (ApiSecret → Handler A) → Handler A
  if_valid (valid secret) go = go secret
  if_valid secret_not_found go = refuse 401 (codes "Missing or invalid API secret")
  if_valid invalid_secret go = refuse 401 (codes "Missing or invalid API secret")

  -- The first part of both handlers, with the values of `X-Slurpee-Secret-ID` and
  -- `X-Slurpee-Secret`.
  unfoldable pub authenticated : {A : Type 0} → Bytes → Bytes → (ApiSecret → Handler A) → Handler A
  unfolding if_valid
  authenticated secret_id secret go =
      if is_empty secret_id
      then refuse 401 (codes "Missing X-Slurpee-Secret-ID header")
      else on_option (ext.uuid_parse secret_id)
          (refuse 400 (codes "X-Slurpee-Secret-ID must be a valid UUID"))
          λ id.
            if is_empty secret
            then refuse 401 (codes "Missing or invalid API secret")
            else do answer ← validate_secret_by_id ext id secret; if_valid answer go

  -- The end of `createEventHandler`, once the event is stored. `LogEvent` extracts the properties
  -- once for the log, and the handler once more for the bus.
  unfoldable pub accept : Event → Handler EventResponse
  unfolding event_to_response
  accept event = do
    logged ← extract_log_properties ext event.subject event.content
    props ← extract_log_properties ext event.subject event.content
    publish_created_event ext event (entries props)
    send_to_delivery event
    reply 201 (event_to_response event)

  -- The row that `createEventHandler` inserts.
  unfoldable pub new_event : CreateEventRequest → PgUuid → PgUuid → ℕ → Event
  new_event req id trace_id now = record {
    id = id;
    subject = req.subject;
    timestamp = or_now req.timestamp now;
    trace_id = trace_id;
    content = req.content;
    retry_count = 0;
    delivery_status = pending;
    status_updated_at = some now;
  }

  unfoldable pub store_event : CreateEventRequest → PgUuid → PgUuid → Handler EventResponse
  unfolding accept new_event
  store_event req id trace_id = do
    now ← gets (λ a. a.now)
    inserted ← in_db (insert_event (new_event req id trace_id now))
    on_result inserted (λ e. refuse 500 (codes "Failed to create event")) accept

  unfoldable pub event_id : Option Bytes → Action Application (Option PgUuid)
  event_id none = do id ← draw_id ext; pure (some id)
  event_id (some text) = pure (Option.map pg_uuid (ext.uuid_parse text))

  unfoldable pub trace_id_of : Option Bytes → Option PgUuid
  trace_id_of none = some null_uuid
  trace_id_of (some text) = Option.map pg_uuid (ext.uuid_parse text)

  unfoldable pub create_with_id : CreateEventRequest → Handler EventResponse
  unfolding store_event event_id trace_id_of
  create_with_id req = do
    parsed ← event_id req.id
    on_option parsed (refuse 400 (codes "id must be a valid UUID")) λ id.
        on_option (trace_id_of req.trace_id) (refuse 400 (codes "trace_id must be a valid UUID"))
          λ trace_id. store_event req id trace_id

  -- `createEventHandler` behind the validation of the secret and the decoding of the body.
  unfoldable pub create_event : CreateEventRequest → ApiSecret → Handler EventResponse
  unfolding create_with_id
  create_event req secret =
      if is_empty req.subject
      then refuse 400 (codes "subject is required")
      else if not (check_send_scope secret.subject_pattern req.subject)
      then refuse 403 (codes "Subject not permitted by API secret scope")
      else if is_empty req.content
      then refuse 400 (codes "data is required")
      else on_option (ext.unmarshal_object req.content)
          (refuse 400 (codes "data must be a valid JSON object")) λ obj. create_with_id req

  -- `createEventHandler`
  unfoldable pub create_event_handler :
      Bytes → Bytes → Option CreateEventRequest → Handler EventResponse
  unfolding authenticated create_event
  create_event_handler secret_id secret request = authenticated secret_id secret λ matched.
      on_option request (refuse 400 (codes "Invalid request body")) λ req. create_event req matched

  abbrev refuse_event : DbError → Handler EventResponse
  refuse_event no_rows = refuse 404 (codes "event not found")
  refuse_event other = refuse 500 (codes "Failed to retrieve event")

  -- `getEventHandler`, with the `id` of the path.
  unfoldable pub get_event_handler : Bytes → Bytes → Bytes → Handler EventResponse
  unfolding authenticated event_to_response
  get_event_handler secret_id secret id = authenticated secret_id secret λ matched.
      on_option (ext.uuid_parse id) (refuse 400 (codes "id must be a valid UUID")) λ parsed. do
        found ← in_db (get_event_by_id (pg_uuid parsed))
        on_result found refuse_event (λ event. reply 200 (event_to_response event))
