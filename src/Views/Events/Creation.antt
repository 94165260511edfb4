-- ===== src/Views/Events/Creation.antt =====
-- views/events.go: the form that creates an event.
use mathlib.Core.Option
use slurpee.Prelude.{
  ℕ, Bool, true, false, not, ◌&&◌, Option, none, some, [], ◌++◌, is_empty, if◌then◌else◌,
}
use slurpee.Prelude.Action.{pure, ◌>>=◌, ◌>>◌, gets, on_option, on_result}
use slurpee.Prelude.Keys.{Bytes, codes}
use slurpee.Model.{PgUuid, pg_uuid, Event, pending}
use slurpee.Db.Events.{insert_event}
use slurpee.External.{External}
use slurpee.App.{in_db, send_to_delivery, draw_id}
use slurpee.LogProperties.{extract_log_properties}
use slurpee.LogProperties.Extraction.{entries}
use slurpee.Delivery.Attempt.{publish_created_event}
use slurpee.Views.{Platform, redirected, View, show, http_error, Form, form_value, uuid_to_string}

-- `Errors`, a map with these keys.
pub record FormErrors : Type 0 where
  pub subject : Option Bytes
  pub content : Option Bytes
  pub trace_id : Option Bytes
  pub general : Option Bytes

-- `EventCreateForm`; its `Data` is `content`.
pub record EventCreateForm : Type 0 where
  pub subject : Bytes
  pub content : Bytes
  pub trace_id : Bytes
  pub errors : FormErrors

abbrev pub no_errors : FormErrors
no_errors = record { subject = none; content = none; trace_id = none; general = none }

abbrev is_none : {A : Type 0} → Option A → Bool
is_none none = true
is_none (some a) = false

-- `len(form.Errors) == 0`
abbrev pub is_clean : FormErrors → Bool
is_clean e = is_none e.subject && is_none e.content && is_none e.trace_id && is_none e.general

-- `eventCreateFormHandler`
unfoldable pub event_create_form_handler : View EventCreateForm
event_create_form_handler =
    show 200 (record { subject = []; content = []; trace_id = []; errors = no_errors })

module _ {Value : Type 0} (ext : External Value) (platform : Platform) where
  unfoldable pub check_content : Bytes → Option Bytes
  check_content content =
      if is_empty content
      then some (codes "Data is required")
      else if not (platform.json_valid content)
      then some (codes "Data must be valid JSON")
      else on_option (ext.unmarshal_object content)
          (some (codes "Data must be a JSON object (not array or primitive)")) λ obj. none

  -- `traceUUID`, or `none` if the text is not a UUID.
  unfoldable pub parse_trace_id : Bytes → Option PgUuid
  parse_trace_id text =
      if is_empty text
      then some (record { bytes = 0; valid = false })
      else Option.map pg_uuid (ext.uuid_parse text)

  -- The checks of `eventCreateSubmitHandler`.
  unfoldable pub check_form : Bytes → Bytes → Bytes → FormErrors
  unfolding check_content parse_trace_id
  check_form subject content trace_id = record {
    subject = if is_empty subject then some (codes "Subject is required") else none;
    content = check_content content;
    trace_id =
        on_option (parse_trace_id trace_id) (some (codes "Trace ID must be a valid UUID"))
          λ id. none;
    general = none;
  }

  -- What follows the insertion: the log, the bus, the dispatcher and the redirection.
  unfoldable pub announce : Event → View EventCreateForm
  unfolding uuid_to_string
  announce event = do
    logged ← extract_log_properties ext event.subject event.content
    props ← extract_log_properties ext event.subject event.content
    publish_created_event ext event (entries props)
    send_to_delivery event
    pure (redirected (codes "/events/" ++ uuid_to_string ext event.id))

  abbrev event_of_form : EventCreateForm → PgUuid → PgUuid → ℕ → Event
  event_of_form form id trace_id now = record {
    id = id;
    subject = form.subject;
    timestamp = now;
    trace_id = trace_id;
    content = form.content;
    retry_count = 0;
    delivery_status = pending;
    status_updated_at = some now;
  }

  -- `eventCreateSubmitHandler` behind its checks.
  unfoldable pub submit_event : EventCreateForm → PgUuid → View EventCreateForm
  unfolding announce
  submit_event form trace_id = do
    now ← gets (λ a. a.now)
    id ← draw_id ext
    inserted ← in_db (insert_event (event_of_form form id trace_id now))
    on_result inserted
        (λ e. show 500 (record form {
          errors = record (form.errors) {
            general = some (codes "Failed to create event. Please try again.");
          };
        }))
        announce

  -- `eventCreateSubmitHandler`
  unfoldable pub event_create_submit_handler : Option Form → View EventCreateForm
  unfolding submit_event check_form parse_trace_id
  event_create_submit_handler request =
      on_option request (http_error 400 (codes "Invalid form data")) λ values.
        let subject = form_value (codes "subject") values in
        let content = form_value (codes "data") values in
        let trace_id = form_value (codes "trace_id") values in
        let errors = check_form subject content trace_id in
        let form : EventCreateForm = record {
          subject = subject;
          content = content;
          trace_id = trace_id;
          errors = errors;
        } in
        if is_clean errors
        then on_option (parse_trace_id trace_id) (show 400 form) (submit_event form)
        else show 400 form
