-- ===== src/Delivery/Outcome.antt =====
-- What the last result of an event writes.
use slurpee.Prelude.{
  ℕ, ◌≡◌, ◌↔◌, ◌⊎◌, refl, Bool, true, false, not, some, List, [], ◌∷◌, All, arith, length,
  update_if, if◌then◌else◌,
}
use slurpee.Prelude.Action.{pure}
use slurpee.Prelude.Keys.{◌==◌, nat_eq, lookup, insert, erase}
use slurpee.Model.{DeliveryStatus, uuid_eq, delivered, failed}
use slurpee.Db.Events.{set_status}
use slurpee.External.{External}
use slurpee.Delivery.State.{
  System, DeliveryTask, DeliveryResult, EventTracker, record_result, deregister, in_app,
}
use slurpee.Delivery.Recorded.{update_event_status-rows}
use slurpee.Delivery.Worker.{all_succeeded, final_status, finalize_event, record_on, finish_task}

all_succeeded_iff :
    (results : List (ℕ × DeliveryResult))
    → (all_succeeded results ≡ true) ↔ All (λ p. p.1.succeeded ≡ true) results
unfolding all_succeeded
all_succeeded_iff [] = (λ h. tt, λ h. refl)
all_succeeded_iff ((key, r) ∷ rest) = ground (arith, all_succeeded_iff rest)

final_status_iff :
    (results : List (ℕ × DeliveryResult))
    → ((final_status results ≡ delivered) ↔ All (λ p. p.1.succeeded ≡ true) results)
      × ((final_status results ≡ delivered) ⊎ (final_status results ≡ failed))
unfolding final_status
final_status_iff results = ground (arith, all_succeeded_iff results)

module _ {Value : Type 0} (ext : External Value) where
  -- The end of `finish_task`, with the test of `record` at hand.
  finalize_if :
      (t : EventTracker) (s : System)
      → s.app.db.outages ≡ []
      → (complete : Bool)
      → let after = ((if complete then finalize_event ext t else pure tt) s).1 in
        (after.app.db.events ≡ (
          if complete
          then update_if
              (λ e. e.id == t.event.id)
              (set_status (final_status t.results) t.event.retry_count s.app.now)
              s.app.db.events
          else s.app.db.events))
        × (after.dispatcher.registry ≡ (
            if complete
            then erase t.event.id.bytes s.dispatcher.registry
            else s.dispatcher.registry))
        × (after.dispatcher.trackers ≡ s.dispatcher.trackers)
  unfolding finalize_event deregister in_app
  finalize_if t s up true =
      (update_event_status-rows ext (final_status t.results) t.event s.app up, refl, refl)
  finalize_if t s up false = (refl, refl, refl)

  -- A task ends with its result in the tracker of its event, under its subscription. While the
  -- database answers and the tracker is at hand: if as many results are in as tasks were expected,
  -- the row of the tracker's event gets a final status, at the time of the call and with the retry
  -- count of the tracker's event, and the registry forgets the event; the status is `delivered`
  -- exactly when every result of the tracker, this one included, is a success, and otherwise
  -- `failed`. If not, the events and the registry stay as they are.
  pub finish_task-finalizes :
      (task : DeliveryTask) (succeeded : Bool) (tracker : EventTracker) (s : System)
      → s.app.db.outages ≡ []
      → lookup task.tracker s.dispatcher.trackers ≡ some tracker
      → let result : DeliveryResult = record {
        subscription_id = task.subscription.id;
        succeeded = succeeded;
        exhausted = not succeeded;
      } in
        let results = insert task.subscription.id.bytes result tracker.results in
        let complete = length results == tracker.expected in
        let after = (finish_task ext task succeeded s).1 in
        (status : DeliveryStatus) × ((status ≡ delivered) ↔ All (λ p. p.1.succeeded ≡ true) results)
        × ((status ≡ delivered) ⊎ (status ≡ failed))
        × (after.app.db.events ≡ (
            if complete
            then update_if
                (λ e. e.id == tracker.event.id)
                (set_status status tracker.event.retry_count s.app.now)
                s.app.db.events
            else s.app.db.events))
        × (after.dispatcher.registry ≡ (
            if complete
            then erase tracker.event.id.bytes s.dispatcher.registry
            else s.dispatcher.registry))
        × (after.dispatcher.trackers
            ≡ insert task.tracker (record tracker { results = results }) s.dispatcher.trackers)
  unfolding finish_task record_on record_result
  finish_task-finalizes task succeeded tracker s up found =
      let result : DeliveryResult = record {
        subscription_id = task.subscription.id;
        succeeded = succeeded;
        exhausted = not succeeded;
      } in
      let results = insert task.subscription.id.bytes result tracker.results in
      let (all, either) = final_status_iff results in
      let t = record tracker { results = results } in
      let d = record (s.dispatcher) { trackers = insert task.tracker t s.dispatcher.trackers } in
      let (rows, registry, trackers) =
        finalize_if t (record s { dispatcher = d }) up (length results == tracker.expected) in
      rw found (final_status results, all, either, rows, registry, trackers)
