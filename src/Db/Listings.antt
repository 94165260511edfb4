-- ===== src/Db/Listings.antt =====
-- queries/events.sql and queries/delivery_attempts.sql: the searches and listings of the web pages.
-- `Engine` is what these queries leave to PostgreSQL.
use slurpee.Prelude.{
  ℕ, Bool, true, not, ◌&&◌, ◌||◌, Option, List, is_empty, leb, ltb, length, keep_if,
}
use slurpee.Prelude.Action.{Action, Result, ok, err, other, on_option}
use slurpee.Prelude.Int.{ℤ, pos, negsuc, ltb_ℤ}
use slurpee.Prelude.Keys.{Bytes, codes, ◌==◌, bytes_eq, nat_eq}
use slurpee.Prelude.Sort.{sort_by, take, drop}
use slurpee.Model.{
  PgUuid, uuid_eq, Event, DeliveryStatus, pending, partial, delivered, failed, recorded,
  DeliveryAttempt,
}
use slurpee.Db.{Db, query}

pub record Engine : Type 0 where
  -- `text LIKE pattern`
  pub like : Bytes → Bytes → Bool
  -- `data @> filter` of JSONB
  pub contains_json : Bytes → Bytes → Bool
  -- `a <= b` in the collation of the database.
  pub text_leb : Bytes → Bytes → Bool
  -- `id::text`
  pub uuid_text : ℕ → Bytes
  -- The order of rows that ORDER BY leaves open, which may differ between LIMITs and OFFSETs.
  pub breaks_tie : ℕ → ℤ → Event → Event → Bool

-- The text in the column `delivery_status`.
abbrev pub status_text : DeliveryStatus → Bytes
status_text pending = codes "pending"
status_text partial = codes "partial"
status_text delivered = codes "delivered"
status_text failed = codes "failed"
status_text recorded = codes "recorded"

-- ORDER BY timestamp DESC, by a query with this LIMIT and OFFSET.
unfoldable pub newest_first : Engine → ℕ → ℤ → List Event → List Event
newest_first engine limit offset = sort_by λ a b.
    ltb b.timestamp a.timestamp
    || (a.timestamp == b.timestamp && engine.breaks_tie limit offset a b)

pub record ListEventsParams : Type 0 where
  pub limit : ℕ
  pub offset : ℤ

-- LIMIT and OFFSET; a negative OFFSET is an error.
unfoldable pub page_of : ℕ → ℤ → List Event → Result (List Event)
page_of limit (pos n) rows = ok (take limit (drop n rows))
page_of limit (negsuc n) rows = err other

-- ListEvents
unfoldable pub list_events : Engine → ListEventsParams → Action Db (Result (List Event))
unfolding newest_first page_of
list_events engine p =
    query (λ db. (page_of p.limit p.offset (newest_first engine p.limit p.offset db.events), db))

pub record SearchEventsFilteredParams : Type 0 where
  pub limit : ℕ
  pub offset : ℤ
  pub subject_filter : Bytes
  pub status_filter : Bytes
  -- `none` is NULL.
  pub start_time_filter : Option ℤ
  pub end_time_filter : Option ℤ
  pub data_filter : Option Bytes
  pub trace_id_filter : Bytes

pub record EventsAfterParams : Type 0 where
  pub after_timestamp : ℤ
  pub subject_filter : Bytes
  pub status_filter : Bytes
  pub data_filter : Option Bytes
  pub trace_id_filter : Bytes

-- `$n IS NULL OR ...`
unfoldable pub if_given : {A : Type 0} → Option A → (A → Bool) → Bool
if_given given test = on_option given true test

module _ (engine : Engine) where
  -- `$n = '' OR subject LIKE $n`
  unfoldable pub subject_passes : Bytes → Event → Bool
  subject_passes filter e = is_empty filter || engine.like e.subject filter

  -- `$n = '' OR delivery_status = $n`
  unfoldable pub status_passes : Bytes → Event → Bool
  status_passes filter e = is_empty filter || status_text e.delivery_status == filter

  -- `$n IS NULL OR data @> $n`
  unfoldable pub data_passes : Option Bytes → Event → Bool
  unfolding if_given
  data_passes filter e = if_given filter (λ f. engine.contains_json e.content f)

  -- `$n = '' OR trace_id::text = $n`
  unfoldable pub trace_passes : Bytes → Event → Bool
  trace_passes filter e =
      is_empty filter || (e.trace_id.valid && engine.uuid_text e.trace_id.bytes == filter)

  unfoldable pub search_passes : SearchEventsFilteredParams → Event → Bool
  unfolding subject_passes status_passes data_passes trace_passes if_given
  search_passes p e =
      subject_passes p.subject_filter e
      && status_passes p.status_filter e
      && if_given p.start_time_filter (λ t. not (ltb_ℤ (pos e.timestamp) t))
      && if_given p.end_time_filter (λ t. not (ltb_ℤ t (pos e.timestamp)))
      && data_passes p.data_filter e
      && trace_passes p.trace_id_filter e

  -- SearchEventsFiltered
  unfoldable pub search_events_filtered :
      SearchEventsFilteredParams → Action Db (Result (List Event))
  unfolding search_passes newest_first page_of
  search_events_filtered p = query (λ db. (
    page_of p.limit p.offset
        (newest_first engine p.limit p.offset (keep_if (search_passes p) db.events)),
    db,
  ))

  unfoldable pub after_passes : EventsAfterParams → Event → Bool
  unfolding subject_passes status_passes data_passes trace_passes
  after_passes p e =
      ltb_ℤ p.after_timestamp (pos e.timestamp)
      && subject_passes p.subject_filter e
      && status_passes p.status_filter e
      && data_passes p.data_filter e
      && trace_passes p.trace_id_filter e

  -- ListEventsAfterTimestamp
  unfoldable pub list_events_after_timestamp : EventsAfterParams → Action Db (Result (List Event))
  unfolding after_passes newest_first
  list_events_after_timestamp p = query (λ db.
      (ok (take 200 (newest_first engine 200 (pos 0) (keep_if (after_passes p) db.events))), db))

  -- CountEventsAfterTimestamp
  unfoldable pub count_events_after_timestamp : EventsAfterParams → Action Db (Result ℕ)
  unfolding after_passes
  count_events_after_timestamp p =
      query (λ db. (ok (length (keep_if (after_passes p) db.events)), db))

-- ListDeliveryAttemptsForEvent
unfoldable pub list_delivery_attempts_for_event : PgUuid → Action Db (Result (List DeliveryAttempt))
list_delivery_attempts_for_event id = query (λ db. (
  ok (
      sort_by (λ a b. leb a.attempted_at b.attempted_at)
        (keep_if (λ a. a.event_id == id) db.delivery_attempts)),
  db,
))
