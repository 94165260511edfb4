-- ===== src/Views/Events/Paging.antt =====
-- Which events the pages of the list show.
use slurpee.Prelude.{
  ℕ, zero, suc, ◌+◌, ◌-◌, ◌*◌, ◌^◌, ◌<◌, ◌≡◌, refl, ap, ◌∙◌, arith, Bool, inl, inr, Bool-cases,
  List, [], ◌∷◌, ◌++◌, map, length, ltb, keep_if, if◌then◌else◌,
}
use slurpee.Prelude.Action.{ok}
use slurpee.Prelude.Int.{pos}
use slurpee.Prelude.Keys.{Bytes, codes, bytes_eq, nat_eq}
use slurpee.Prelude.Sort.{take, drop, length-take, length-drop, take-drop}
use slurpee.Model.{Event}
use slurpee.Db.{query_idle}
use slurpee.Db.Listings.{list_events, search_events_filtered, search_passes, page_of}
use slurpee.External.{External}
use slurpee.App.{Application, in_db}
use slurpee.LogProperties.{get_log_config, batch_extract_log_properties}
use slurpee.Api.Subscribers.{int32}
use slurpee.Views.{Platform, shown, Form, form_value, or_internal_error, uuid_to_string}
use slurpee.Views.Events.{
  EventFilters, EventRow, EventsPage, has_any, parse_filters, parse_page, offset_of, search_params,
  select_events, event_rows, events_list_handler,
}
use slurpee.Views.Events.Selection.{
  AreApart, shows, selected, keep_if-AreApart, keep_if-agree, keep_if-everything,
  newest_first_apart, passes_shows, bare_shows,
}

offset_of_small : (page : ℕ) → (page - 1) * 25 < 2 ^ 31 → offset_of page ≡ pos ((page - 1) * 25)
unfolding offset_of int32
offset_of_small page small = ground arith

-- One row more is asked for than is shown.
module _ {A : Type 0} where
  first_rows :
      (k : ℕ) (xs : List A)
      → (if ltb k (length (take (suc k) xs)) then take k (take (suc k) xs) else take (suc k) xs)
        ≡ take k xs
  unfolding take
  first_rows zero [] = refl
  first_rows zero (x ∷ xs) = ground arith
  first_rows (suc k) [] = ground arith
  first_rows (suc k) (x ∷ xs) = ground (arith, first_rows k xs)

  more_rows :
      (k n : ℕ) (xs : List A) → ltb k (length (take (suc k) (drop n xs))) ≡ ltb (n + k) (length xs)
  more_rows k n xs = ground (arith, length-take (suc k) (drop n xs), length-drop n xs)

module _ {Value : Type 0} (ext : External Value) (platform : Platform) where
  select_idle :
      (page : ℕ) (f : EventFilters) (a : Application)
      → a.db.outages ≡ []
      → AreApart a.db.events
      → (page - 1) * 25 < 2 ^ 31
      → select_events ext platform page f a
        ≡ (ok (take 26 (drop ((page - 1) * 25) (selected platform f a))), a)
  unfolding select_events in_db list_events search_events_filtered page_of search_params
  select_idle page f a up apart small = elim (Bool-cases (has_any f)) [
    | inl given ↦
        rw
          (
            given,
            query_idle _ a.db up,
            offset_of_small page small,
            keep_if-agree (search_passes platform.engine (search_params ext platform page f))
                (shows platform f) a.db.events (passes_shows ext platform page f),
            newest_first_apart platform.engine 26 (pos ((page - 1) * 25))
                (keep_if (shows platform f) a.db.events)
                (keep_if-AreApart (shows platform f) a.db.events apart),
          )
          refl
    | inr bare ↦
        rw
          (
            bare,
            query_idle _ a.db up,
            offset_of_small page small,
            newest_first_apart platform.engine 26 (pos ((page - 1) * 25)) a.db.events apart,
            keep_if-everything (shows platform f) a.db.events
                (λ e. bare_shows ext platform f e bare),
          )
          refl
  ]

  abbrev pub ids_of : List Event → List Bytes
  ids_of = map (λ e. uuid_to_string ext e.id)

  -- There is a row for each event, in order.
  event_rows_ids :
      (events : List Event) (a : Application)
      → map
          (λ (r : EventRow). r.id)
          (event_rows ext platform events (batch_extract_log_properties ext events a).0)
        ≡ ids_of events
  unfolding event_rows batch_extract_log_properties
  event_rows_ids [] a = refl
  event_rows_ids (e ∷ events) a =
      ap (λ l. uuid_to_string ext e.id ∷ l) (event_rows_ids events (get_log_config e.subject a).1)

  map-take : (n : ℕ) (events : List Event) → ids_of (take n events) ≡ take n (ids_of events)
  unfolding take
  map-take zero events = refl
  map-take (suc n) [] = refl
  map-take (suc n) (e ∷ events) = ap (λ l. uuid_to_string ext e.id ∷ l) (map-take n events)

  map-drop : (n : ℕ) (events : List Event) → ids_of (drop n events) ≡ drop n (ids_of events)
  unfolding drop
  map-drop zero events = refl
  map-drop (suc n) [] = refl
  map-drop (suc n) (e ∷ events) = map-drop n events

  -- The pages of the list are the selected events in turn. While the database answers and no two
  -- events have the same timestamp, a page whose offset is less than 2 ^ 31 shows the events that
  -- the filters of the query mean, the latest first, after the 25 of each page before it: the first
  -- 25 of those that are left, so that with the pages before it the list goes on without a gap or a
  -- repetition. It links to a next page exactly if events are left after it.
  pub events_list_handler-pages :
      (query : Form) (partial_view : Bool) (a : Application)
      → a.db.outages ≡ []
      → AreApart a.db.events
      → (parse_page (form_value (codes "page") query) - 1) * 25 < 2 ^ 31
      → let page = parse_page (form_value (codes "page") query) in
        let all = selected platform (parse_filters query) a in
        let before = (page - 1) * 25 in
        (p : EventsPage) × ((events_list_handler ext platform query partial_view a).0 ≡ shown 200 p)
        × (p.page ≡ page)
        × (p.has_next ≡ ltb (before + 25) (length all))
        × (take before (ids_of all) ++ map (λ (r : EventRow). r.id) p.rows
            ≡ take (before + 25) (ids_of all))
  unfolding events_list_handler or_internal_error
  events_list_handler-pages query partial_view a up apart small =
      let page = parse_page (form_value (codes "page") query) in
      let f = parse_filters query in
      let all = selected platform f a in
      let n = (page - 1) * 25 in
      let listed = take 25 (drop n all) in
      let p : EventsPage = record {
        rows = event_rows ext platform listed (batch_extract_log_properties ext listed a).0;
        page = page;
        has_next = ltb (n + 25) (length all);
        filters = f;
        partial_view = partial_view;
      } in
      (
        p,
        rw (select_idle page f a up apart small, first_rows 25 (drop n all), more_rows 25 n all)
            refl,
        refl,
        refl,
        ap (λ l. take n (ids_of all) ++ l)
              (event_rows_ids listed a ∙ map-take 25 (drop n all) ∙ ap (take 25) (map-drop n all))
            ∙ take-drop n 25 (ids_of all),
      )
