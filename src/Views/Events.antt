-- ===== src/Views/Events.antt =====
-- views/events.go: the filters of the event pages, the list of events, and the rows that a page
-- asks for when it has missed some.
pub mod Detail
pub mod Creation
pub mod Stream
pub mod Selection
pub mod Paging
pub mod Missed
use slurpee.Prelude.{
  ℕ, ◌+◌, ◌-◌, ◌*◌, Bool, true, false, not, ◌||◌, ◌&&◌, Option, none, some, List, [], ◌∷◌, ◌++◌,
  is_empty, ltb, length, if◌then◌else◌,
}
use slurpee.Prelude.Action.{Action, pure, ◌>>=◌, on_option, on_result, Result}
use slurpee.Prelude.Int.{ℤ, pos, negsuc, ◌+ℤ◌}
use slurpee.Prelude.Keys.{Bytes, codes, ◌==◌, nat_eq}
use slurpee.Prelude.Sort.{take}
use slurpee.Prelude.Text.{parse_int}
use slurpee.Model.{Event, DeliveryStatus}
use slurpee.Db.Listings.{
  list_events, search_events_filtered, SearchEventsFilteredParams, EventsAfterParams,
  list_events_after_timestamp,
}
use slurpee.External.{External}
use slurpee.App.{Application, in_db}
use slurpee.LogProperties.{Properties, batch_extract_log_properties}
use slurpee.Api.Subscribers.{int32}
use slurpee.Views.{
  Platform, Page, View, show, http_error, or_internal_error, Form, form_value, uuid_to_string,
}

-- `eventsPerPage`
abbrev pub events_per_page : ℕ
events_per_page = 25

pub record EventFilters : Type 0 where
  pub subject : Bytes
  pub status : Bytes
  pub date_from : Bytes
  pub date_to : Bytes
  pub content : Bytes
  pub trace_id : Bytes

unfoldable pub has_any : EventFilters → Bool
has_any f =
    not (is_empty f.subject)
    || not (is_empty f.status)
    || not (is_empty f.date_from)
    || not (is_empty f.date_to)
    || not (is_empty f.content)
    || not (is_empty f.trace_id)

-- `parseFilters`
unfoldable pub parse_filters : Form → EventFilters
parse_filters query = record {
  subject = form_value (codes "subject") query;
  status = form_value (codes "status") query;
  date_from = form_value (codes "date_from") query;
  date_to = form_value (codes "date_to") query;
  content = form_value (codes "content") query;
  trace_id = form_value (codes "trace_id") query;
}

pub record EventRow : Type 0 where
  pub id : Bytes
  pub subject : Bytes
  pub timestamp : ℕ
  pub delivery_status : DeliveryStatus
  pub properties : Properties

pub record EventsPage : Type 0 where
  pub rows : List EventRow
  pub page : ℕ
  pub has_next : Bool
  pub filters : EventFilters
  -- Whether only the table is rendered.
  pub partial_view : Bool

abbrev positive_or_one : ℤ → ℕ
positive_or_one (pos n) = if n == 0 then 1 else n
positive_or_one (negsuc n) = 1

-- The `page` of the query: 1, unless it is a positive number.
unfoldable pub parse_page : Bytes → ℕ
parse_page text = if is_empty text then 1 else on_option (parse_int 64 text) 1 positive_or_one

-- `int32((page - 1) * eventsPerPage)`; a product that wraps at 64 bits has the same low 32.
unfoldable pub offset_of : ℕ → ℤ
unfolding int32
offset_of page = int32 (pos ((page - 1) * events_per_page))

-- "%" + subject + "%"
unfoldable pub partial_match : Bytes → Bytes
partial_match subject = if is_empty subject then [] else codes "%" ++ subject ++ codes "%"

-- The last second of a day, from its start.
abbrev pub end_of_day : ℤ → ℤ
end_of_day t = t +ℤ pos (86399 * 1000000000)

module _ {Value : Type 0} (ext : External Value) (platform : Platform) where
  unfoldable pub event_rows : List Event → List Properties → List EventRow
  unfolding uuid_to_string
  event_rows (e ∷ events) (props ∷ others) =
      record {
        id = uuid_to_string ext e.id;
        subject = e.subject;
        timestamp = e.timestamp;
        delivery_status = e.delivery_status;
        properties = props;
      }
      ∷ event_rows events others
  event_rows _ _ = []

  unfoldable pub date_filter : Bytes → Option ℤ
  date_filter text = if is_empty text then none else platform.parse_date text

  -- The content to search for, if it is JSON.
  unfoldable pub content_filter : Bytes → Option Bytes
  content_filter text = if not (is_empty text) && platform.json_valid text then some text else none

  unfoldable pub search_params : ℕ → EventFilters → SearchEventsFilteredParams
  unfolding partial_match offset_of date_filter content_filter
  search_params page f = record {
    limit = events_per_page + 1;
    offset = offset_of page;
    subject_filter = partial_match f.subject;
    status_filter = f.status;
    start_time_filter = date_filter f.date_from;
    end_time_filter = on_option (date_filter f.date_to) none (λ t. some (end_of_day t));
    data_filter = content_filter f.content;
    trace_id_filter = f.trace_id;
  }

  -- The query of the list.
  unfoldable pub select_events : ℕ → EventFilters → Action Application (Result (List Event))
  unfolding has_any search_params offset_of
  select_events page f = in_db (
      if has_any f
      then search_events_filtered platform.engine (search_params page f)
      else list_events platform.engine
          (record { limit = events_per_page + 1; offset = offset_of page }))

  -- `eventsListHandler`, with the query of the URL and whether the header `HX-Request` is set.
  unfoldable pub events_list_handler : Form → Bool → View EventsPage
  unfolding select_events event_rows parse_page parse_filters or_internal_error
  events_list_handler query partial_view =
      let page = parse_page (form_value (codes "page") query) in
      let filters = parse_filters query in
      or_internal_error (select_events page filters) λ events. do
        let has_next = ltb events_per_page (length events)
        let listed = if has_next then take events_per_page events else events
        props ← batch_extract_log_properties ext listed
        show 200 (record {
          rows = event_rows listed props;
          page = page;
          has_next = has_next;
          filters = filters;
          partial_view = partial_view;
        })

  -- The parameters of the two queries for missed events. They have no date range.
  unfoldable pub after_params : ℤ → EventFilters → EventsAfterParams
  unfolding partial_match content_filter
  after_params after f = record {
    after_timestamp = after;
    subject_filter = partial_match f.subject;
    status_filter = f.status;
    data_filter = content_filter f.content;
    trace_id_filter = f.trace_id;
  }

  -- `eventsMissedHandler`, with the query of the URL.
  unfoldable pub events_missed_handler : Form → View (List EventRow)
  unfolding after_params event_rows parse_filters or_internal_error
  events_missed_handler query =
      let after = form_value (codes "after") query in
      if is_empty after
      then http_error 400 (codes "Missing 'after' parameter")
      else on_option (parse_int 64 after) (http_error 400 (codes "Invalid 'after' parameter"))
          λ nanos.
            or_internal_error
              (in_db (
                list_events_after_timestamp platform.engine
                  (after_params nanos (parse_filters query))))
              λ events. do
                props ← batch_extract_log_properties ext events
                show 200 (event_rows events props)
