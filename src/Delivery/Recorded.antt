-- ===== src/Delivery/Recorded.antt =====
-- An event that nobody subscribes to.
use slurpee.Prelude.{ℕ, ◌≡◌, refl, List, [], keep_if, find, update_if}
use slurpee.Prelude.Action.{pure, Result, ok, err, on_result}
use slurpee.Prelude.Keys.{◌==◌}
use slurpee.Model.{PgUuid, uuid_eq, Event, DeliveryStatus, recorded}
use slurpee.Db.{Db, query_idle, one_row}
use slurpee.Db.Events.{update_event_delivery_status, set_status}
use slurpee.EventBus.{BusMessage}
use slurpee.External.{External}
use slurpee.Glob.{subscription_matches}
use slurpee.SubscriptionCache.Current.{IsCurrent, full, get_matching_subscriptions-full}
use slurpee.App.{Application, in_db, in_subscription_cache, publish}
use slurpee.Delivery.State.{System, in_app}
use slurpee.Delivery.Attempt.{update_event_status}
use slurpee.Delivery.Selection.{Groups}
use slurpee.Delivery.Dispatch.{dispatch_event, dispatch_matched}

abbrev rows_with : DeliveryStatus → Event → Application → List Event
rows_with status event a =
    update_if (λ e. e.id == event.id) (set_status status event.retry_count a.now) a.db.events

row_idle :
    (status : DeliveryStatus) (retry_count now : ℕ) (id : PgUuid) (db : Db)
    → db.outages ≡ []
    → let events = update_if (λ e. e.id == id) (set_status status retry_count now) db.events in
      update_event_delivery_status status retry_count now id db
      ≡ (one_row (find (λ e. e.id == id) events), record db { events = events })
unfolding update_event_delivery_status
row_idle status retry_count now id db up = query_idle _ db up

-- Publishing the change, or not, leaves the rows alone.
after_publish :
    (r : Result Event) (msg : BusMessage) (b : Application)
    → (on_result r (λ e. pure tt) (λ _. publish msg) b).1.db.events ≡ b.db.events
unfolding publish
after_publish (ok e) msg b = refl
after_publish (err e) msg b = refl

module _ {Value : Type 0} (ext : External Value) where
  pub update_event_status-rows :
      (status : DeliveryStatus) (event : Event) (a : Application)
      → a.db.outages ≡ []
      → (update_event_status ext event.id event.retry_count status a).1.db.events
        ≡ rows_with status event a
  unfolding update_event_status in_db
  update_event_status-rows status event a up =
      rw (row_idle status event.retry_count a.now event.id a.db up) (
        after_publish (one_row (find (λ e. e.id == event.id) (rows_with status event a))) _
          (record a { db = record (a.db) { events = rows_with status event a } }))

  -- An event that no subscription of the table matches is recorded: while the database answers and a
  -- loaded cache holds the tables, its dispatch writes the status `recorded` to its row, with the
  -- time of the call and the retry count that it has, and leaves the dispatcher as it was.
  pub dispatch_event_recorded :
      (order : Groups → Groups) (event : Event) (s : System)
      → s.app.db.outages ≡ []
      → IsCurrent (s.app.subscription_cache, s.app.db)
      → keep_if
          (λ sub. subscription_matches sub.subject_pattern event.subject)
          s.app.db.subscriptions
        ≡ []
      → let t = (dispatch_event ext order event s).1 in
        (t.app.db.events
          ≡ update_if
              (λ e. e.id == event.id)
              (set_status recorded event.retry_count s.app.now)
              s.app.db.events)
        × (t.dispatcher ≡ s.dispatcher)
  unfolding dispatch_event dispatch_matched in_app in_subscription_cache
  dispatch_event_recorded order event s up current nobody =
      rw
        (
          get_matching_subscriptions-full s.app.subscription_cache s.app.db event.subject up
              current,
          nobody,
        )
        (
          update_event_status-rows recorded event
              (record (s.app) { subscription_cache = full s.app.db }) up,
          refl,
        )
