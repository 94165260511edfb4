-- ===== src/Views/Events/Detail.antt =====
-- views/events.go: the page of one event, and the replays that it starts.
use slurpee.Prelude.{ℕ, Option, none, some, List, [], is_empty, map, if◌then◌else◌}
use slurpee.Prelude.Action.{
  Action, pure, ◌>>=◌, ◌>>◌, on_option, on_result, DbError, no_rows, other,
}
use slurpee.Prelude.Keys.{Bytes, codes}
use slurpee.Model.{PgUuid, pg_uuid, Event, Subscriber, DeliveryAttempt, AttemptStatus}
use slurpee.Db.Events.{get_event_by_id}
use slurpee.Db.Subscribers
use slurpee.Db.Listings.{list_delivery_attempts_for_event, status_text}
use slurpee.External.{External}
use slurpee.App.{Application, in_db, send_to_delivery}
use slurpee.Views.{Platform, Page, plain, View, show, http_error, uuid_to_string}
use slurpee.Views.Subscribers.{pretty_json}

-- A time is `none` where it is the zero time or is not shown.
pub record EventDetail : Type 0 where
  pub id : Bytes
  pub subject : Bytes
  pub timestamp : Option ℕ
  pub trace_id : Bytes
  pub delivery_status : Bytes
  pub retry_count : ℕ
  pub data_json : Bytes
  pub status_updated_at : Option ℕ

pub record AttemptRow : Type 0 where
  pub id : Bytes
  pub subscriber_id : Bytes
  pub endpoint_url : Bytes
  pub attempted_at : ℕ
  pub status : AttemptStatus
  pub response_status_code : Option ℕ
  pub request_headers : Bytes
  pub response_headers : Bytes
  pub response_body : Bytes

pub record EventPage : Type 0 where
  pub detail : EventDetail
  pub attempts : List AttemptRow

-- What the page shows of `db.Event{}`.
abbrev pub zero_detail : EventDetail
zero_detail = record {
  id = [];
  subject = [];
  timestamp = none;
  trace_id = [];
  delivery_status = [];
  retry_count = 0;
  data_json = [];
  status_updated_at = none;
}

module _ {Value : Type 0} (ext : External Value) (platform : Platform) where
  unfoldable pub event_detail : Event → EventDetail
  unfolding uuid_to_string pretty_json
  event_detail e = record {
    id = uuid_to_string ext e.id;
    subject = e.subject;
    timestamp = some e.timestamp;
    trace_id = uuid_to_string ext e.trace_id;
    delivery_status = status_text e.delivery_status;
    retry_count = e.retry_count;
    data_json = pretty_json ext platform e.content;
    status_updated_at = e.status_updated_at;
  }

  abbrev pretty_headers : Bytes → Bytes
  pretty_headers headers = if is_empty headers then [] else pretty_json ext platform headers

  unfoldable pub attempt_row : DeliveryAttempt → AttemptRow
  unfolding uuid_to_string pretty_json
  attempt_row a = record {
    id = uuid_to_string ext a.id;
    subscriber_id = uuid_to_string ext a.subscriber_id;
    endpoint_url = a.endpoint_url;
    attempted_at = a.attempted_at;
    status = a.status;
    response_status_code = a.response_status_code;
    request_headers = pretty_headers a.request_headers;
    response_headers = pretty_headers a.response_headers;
    response_body = a.response_body;
  }

  -- `buildEventDetailView`
  unfoldable pub build_event_detail_view : Event → List DeliveryAttempt → EventPage
  unfolding event_detail attempt_row
  build_event_detail_view e attempts = record {
    detail = event_detail e;
    attempts = map attempt_row attempts;
  }

  unfoldable pub event_error : DbError → Page EventPage
  event_error no_rows = plain 404 (codes "Event not found")
  event_error other = plain 500 (codes "Internal Server Error")

  unfoldable pub subscriber_error : DbError → Page EventPage
  subscriber_error no_rows = plain 404 (codes "Subscriber not found")
  subscriber_error other = plain 500 (codes "Internal Server Error")

  -- `eventDetailHandler`, with the `id` of the path.
  unfoldable pub event_detail_handler : Bytes → View EventPage
  unfolding build_event_detail_view event_error
  event_detail_handler path =
      on_option (ext.uuid_parse path) (http_error 400 (codes "Invalid event ID")) λ parsed. do
        found ← in_db (get_event_by_id (pg_uuid parsed))
        on_result found (λ e. pure (event_error e))
            λ event. do
              listed ← in_db (list_delivery_attempts_for_event (pg_uuid parsed))
              on_result listed (λ e. http_error 500 (codes "Internal Server Error"))
                  λ attempts. show 200 (build_event_detail_view event attempts)

  -- The end of both replays: the event and its attempts are read again, without regard to errors.
  unfoldable pub reload : PgUuid → View EventPage
  unfolding event_detail attempt_row
  reload id = do
    found ← in_db (get_event_by_id id)
    listed ← in_db (list_delivery_attempts_for_event id)
    show 200 (record {
      detail = on_result found (λ e. zero_detail) event_detail;
      attempts = map attempt_row (on_result listed (λ e. []) (λ l. l));
    })

  -- `eventReplayAllHandler`, with the `id` of the path.
  unfoldable pub event_replay_all_handler : Bytes → View EventPage
  unfolding reload event_error
  event_replay_all_handler path =
      on_option (ext.uuid_parse path) (http_error 400 (codes "Invalid event ID")) λ parsed. do
        found ← in_db (get_event_by_id (pg_uuid parsed))
        on_result found (λ e. pure (event_error e))
            λ event. do send_to_delivery event; reload (pg_uuid parsed)

  -- What the handler starts `ReplayToSubscriber` with in the background, and its page.
  abbrev pub Replay : Type 0
  Replay = Option (Event × Subscriber) × Page EventPage

  -- `eventReplaySubscriberHandler` behind the parsing of its ids.
  unfoldable pub replay_one : PgUuid → PgUuid → Action Application Replay
  unfolding reload event_error subscriber_error
  replay_one id subscriber_id = do
    found ← in_db (get_event_by_id id)
    on_result found (λ e. pure (none, event_error e))
        λ event. do
          known ← in_db (Subscribers.get_subscriber_by_id subscriber_id)
          on_result known (λ e. pure (none, subscriber_error e))
              λ subscriber. do page ← reload id; pure (some (event, subscriber), page)

  -- `eventReplaySubscriberHandler`, with the `id` and the `subscriberId` of the path.
  unfoldable pub event_replay_subscriber_handler : Bytes → Bytes → Action Application Replay
  unfolding replay_one
  event_replay_subscriber_handler path subscriber_path =
      on_option (ext.uuid_parse path) (pure (none, plain 400 (codes "Invalid event ID"))) λ parsed.
        on_option (ext.uuid_parse subscriber_path)
          (pure (none, plain 400 (codes "Invalid subscriber ID")))
          λ subscriber. replay_one (pg_uuid parsed) (pg_uuid subscriber)
