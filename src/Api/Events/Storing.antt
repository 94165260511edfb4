-- ===== src/Api/Events/Storing.antt =====
-- What storing and announcing an event leave behind.
use slurpee.Prelude.{◌≡◌, refl, ap, ◌∙◌, Option, none, some, [], ◌∷◌, ◌++◌}
use slurpee.Prelude.Action.{pure, Result, ok, err, on_result, on_option}
use slurpee.Prelude.Keys.{Bytes, codes, bytes_eq}
use slurpee.Model.{PgUuid, uuid_eq, Event, pending}
use slurpee.Db.{Db}
use slurpee.Db.Events.{insert_event}
use slurpee.External.{External}
use slurpee.App.{Application, in_db, send_to_delivery, draw_id, publish}
use slurpee.LogProperties.{extract_log_properties}
use slurpee.Delivery.Attempt.{publish_created_event}
use slurpee.Api.{Reply, replied, refused}
use slurpee.Api.Events.{
  CreateEventRequest, EventResponse, event_to_response, accept, new_event, store_event, event_id,
  trace_id_of, create_with_id,
}
use slurpee.Api.Events.Effects.{
  IsUntouched, IsUntouched-trans, Inserted, insert_event-Inserted, extract-IsUntouched,
}

-- One event with `P` was added at the end of the table and of the channel, and is the answer.
pub record IsAccepted {Value : Type 0} (ext : External Value) (P : Event → Type 0)
    (a b : Application) (answer : EventResponse) : Type 0 where
  pub event : Event
  pub stored : b.db.events ≡ a.db.events ++ event ∷ []
  pub queued : b.delivery_chan ≡ a.delivery_chan ++ event ∷ []
  pub answered : answer ≡ event_to_response ext event
  pub is_pending : event.delivery_status ≡ pending
  pub permitted : P event

-- A handler's outcome: refused and nothing changed, or accepted.
abbrev pub Outcome :
    {Value : Type 0}
    → External Value
    → (Event → Type 0)
    → Application
    → Reply EventResponse × Application
    → Type 0
Outcome ext P a (refused code text, b) = IsUntouched a b
Outcome ext P a (replied code answer, b) = (code ≡ 201) × IsAccepted ext P a b answer

module _ {Value : Type 0} (ext : External Value) where
  module _ (P : Event → Type 0) (a : Application) where
    accept-Outcome :
        (event : Event) (b : Application)
        → b.db.events ≡ a.db.events ++ event ∷ []
        → b.delivery_chan ≡ a.delivery_chan
        → event.delivery_status ≡ pending
        → P event
        → Outcome ext P a (accept ext event b)
    unfolding accept publish_created_event publish send_to_delivery
    accept-Outcome event b stored chan is_pending p =
        let first = extract_log_properties ext event.subject event.content b in
        let both =
          IsUntouched-trans b first.1 _ (extract-IsUntouched ext event.subject event.content b)
            (extract-IsUntouched ext event.subject event.content first.1) in
        (
          refl,
          record {
            event = event;
            stored = both.same_events ∙ stored;
            queued = ap (λ l. l ++ event ∷ []) (both.same_chan ∙ chan);
            answered = refl;
            is_pending = is_pending;
            permitted = p;
          },
        )

    finish-Outcome :
        (event : Event) (b : Application) (r : Result Event) (db : Db)
        → IsUntouched a b
        → Inserted event b.db (r, db)
        → event.delivery_status ≡ pending
        → P event
        → Outcome ext P a (
            on_result r
              (λ e. pure (refused 500 (codes "Failed to create event")))
              (accept ext)
              (record b { db = db }))
    finish-Outcome event b (ok e) db u i is_pending p =
        accept-Outcome e (record b { db = db })
          (rw i.0 (i.1 ∙ ap (λ l. l ++ event ∷ []) u.same_events)) u.same_chan (rw i.0 is_pending)
          (rw i.0 p)
    finish-Outcome event b (err e) db u i is_pending p = record {
      same_events = i ∙ u.same_events;
      same_chan = u.same_chan;
    }

    store_event-Outcome :
        (req : CreateEventRequest) (id trace_id : PgUuid) (b : Application)
        → IsUntouched a b
        → ((event : Event) → event.subject ≡ req.subject → P event)
        → Outcome ext P a (store_event ext req id trace_id b)
    unfolding store_event new_event in_db
    store_event-Outcome req id trace_id b u p =
        let event = new_event ext req id trace_id b.now in
        let inserted = insert_event event b.db in
        finish-Outcome event b inserted.0 inserted.1 u (insert_event-Inserted event b.db) refl
          (p event refl)

    pub create_with_id-Outcome :
        (req : CreateEventRequest) (b : Application)
        → IsUntouched a b
        → ((event : Event) → event.subject ≡ req.subject → P event)
        → Outcome ext P a (create_with_id ext req b)
    unfolding create_with_id event_id draw_id
    create_with_id-Outcome req b u p = by_id req.id
      where
        by_trace :
            (o : Option PgUuid) (id : PgUuid) (c : Application)
            → IsUntouched a c
            → Outcome ext P a (
                on_option o
                  (pure (refused 400 (codes "trace_id must be a valid UUID")))
                  (store_event ext req id)
                  c)
        by_trace none id c u = u
        by_trace (some trace_id) id c u = store_event-Outcome req id trace_id c u p

        by_parse :
            (o : Option PgUuid) (c : Application)
            → IsUntouched a c
            → Outcome ext P a (
                on_option o
                  (pure (refused 400 (codes "id must be a valid UUID")))
                  (λ id.
                    on_option
                      (trace_id_of ext req.trace_id)
                      (pure (refused 400 (codes "trace_id must be a valid UUID")))
                      (store_event ext req id))
                  c)
        by_parse none c u = u
        by_parse (some id) c u = by_trace (trace_id_of ext req.trace_id) id c u

        by_id :
            (o : Option Bytes)
            → Outcome ext P a (
                let (parsed, c) = event_id ext o b in
                on_option parsed
                  (pure (refused 400 (codes "id must be a valid UUID")))
                  (λ id.
                    on_option
                      (trace_id_of ext req.trace_id)
                      (pure (refused 400 (codes "trace_id must be a valid UUID")))
                      (store_event ext req id))
                  c)
        by_id none =
            by_parse (event_id ext none b).0 (event_id ext none b).1
              (record { same_events = u.same_events; same_chan = u.same_chan })
        by_id (some text) = by_parse (event_id ext (some text) b).0 b u
