-- ===== src/Views/Events/Missed.antt =====
-- The number of missed events that the stream reports, and the rows that the page then asks for.
use slurpee.Prelude.{
  ℕ, suc, ◌≡◌, refl, ap, ◌∙◌, false, some, List, [], ◌∷◌, is_empty, length, ltb, leb, keep_if,
  if◌then◌else◌,
}
use slurpee.Prelude.Action.{Result, ok}
use slurpee.Prelude.Int.{ℤ, pos}
use slurpee.Prelude.Keys.{Bytes, codes}
use slurpee.Prelude.Sort.{take, length-take, length-sort_by}
use slurpee.Prelude.Text.{parse_int}
use slurpee.Model.{Event}
use slurpee.Db.{Db, query_idle}
use slurpee.Db.Listings.{
  newest_first, after_passes, list_events_after_timestamp, count_events_after_timestamp,
}
use slurpee.External.{External}
use slurpee.App.{Application, in_db}
use slurpee.LogProperties.{get_log_config, batch_extract_log_properties}
use slurpee.Views.{Platform, shown, Form, form_value, or_internal_error}
use slurpee.Views.Events.{
  EventFilters, EventRow, parse_filters, after_params, event_rows, events_missed_handler,
}
use slurpee.Views.Events.Stream.{missed, last_seen, report_missed}

module _ {Value : Type 0} (ext : External Value) (platform : Platform) where
  -- The events after a time that pass the filters.
  abbrev missed_events : ℤ → EventFilters → Application → List Event
  missed_events after f a =
      keep_if (after_passes platform.engine (after_params ext platform after f)) a.db.events

  list_row :
      (after : ℤ) (f : EventFilters) (a : Application)
      → a.db.outages ≡ []
      → in_db (list_events_after_timestamp platform.engine (after_params ext platform after f)) a
        ≡ (ok (take 200 (newest_first platform.engine 200 (pos 0) (missed_events after f a))), a)
  unfolding in_db list_events_after_timestamp
  list_row after f a up =
      ap (λ (r : Result (List Event) × Db). (r.0, record a { db = r.1 })) (query_idle _ a.db up)

  count_row :
      (after : ℤ) (f : EventFilters) (a : Application)
      → a.db.outages ≡ []
      → in_db (count_events_after_timestamp platform.engine (after_params ext platform after f)) a
        ≡ (ok (length (missed_events after f a)), a)
  unfolding in_db count_events_after_timestamp
  count_row after f a up =
      ap (λ (r : Result ℕ × Db). (r.0, record a { db = r.1 })) (query_idle _ a.db up)

  length-event_rows :
      (events : List Event) (a : Application)
      → length (event_rows ext platform events (batch_extract_log_properties ext events a).0)
        ≡ length events
  unfolding event_rows batch_extract_log_properties
  length-event_rows [] a = refl
  length-event_rows (e ∷ events) a =
      ap suc (length-event_rows events (get_log_config e.subject a).1)

  length-newest :
      (events : List Event)
      → length (newest_first platform.engine 200 (pos 0) events) ≡ length events
  unfolding newest_first
  length-newest events = length-sort_by _ events

  -- The stream announces what the page can fetch. While the database answers, if the time in a
  -- client's `Last-Event-ID` is the one that its page asks for, then for the same filters the stream
  -- reports a number, or nothing if it is 0, and the page gets that many rows, but 200 at most.
  pub report_missed-rows :
      (last_id : Bytes) (query : Form) (nanos : ℤ) (a : Application)
      → a.db.outages ≡ []
      → last_seen ext platform last_id ≡ some nanos
      → is_empty (form_value (codes "after") query) ≡ false
      → parse_int 64 (form_value (codes "after") query) ≡ some nanos
      → (count : ℕ) × (rows : List EventRow) × ((report_missed ext platform last_id
            (parse_filters query)
            a).0
          ≡ (if ltb 0 count then missed count ∷ [] else []))
        × ((events_missed_handler ext platform query a).0 ≡ shown 200 rows)
        × (length rows ≡ (if leb count 200 then count else 200))
  unfolding report_missed events_missed_handler or_internal_error
  report_missed-rows last_id query nanos a up seen asked same =
      let f = parse_filters query in
      let found = missed_events nanos f a in
      let listed = take 200 (newest_first platform.engine 200 (pos 0) found) in
      (
        length found,
        event_rows ext platform listed (batch_extract_log_properties ext listed a).0,
        rw (seen, count_row nanos f a up) refl,
        rw (asked, same, list_row nanos f a up) refl,
        length-event_rows listed a
            ∙ length-take 200 (newest_first platform.engine 200 (pos 0) found)
            ∙ rw (length-newest found) refl,
      )
