-- ===== src/Examples/Outcomes.antt =====
-- The last result of an event.
use slurpee.Prelude.{◌≡◌, ◌↔◌, ◌⊎◌, refl, true, false, none, some, [], ◌∷◌, not, All, if◌then◌else◌}
use slurpee.Prelude.Int.{pos}
use slurpee.Prelude.Keys.{nat_eq, bytes_eq, lookup, insert, erase, ◌==◌}
use slurpee.Model.{pg_uuid, uuid_eq, Subscription, delivered, failed}
use slurpee.Delivery.State.{DeliveryResult, DeliveryTask, EventTracker, System, new_dispatcher}
use slurpee.Db.Events.{set_status}
use slurpee.Prelude.{length, update_if}
use slurpee.Model.{DeliveryStatus}
use slurpee.Delivery.Worker.{finish_task}
use slurpee.Delivery.Outcome.{finish_task-finalizes}
use slurpee.Examples.{
  sample_external, sample_app, sample_db, sample_event, sample_subscription, sample_subscriber,
}

-- Two subscriptions; the second allows more retries, and its filter is absent.
abbrev wide_subscription : Subscription
wide_subscription = record sample_subscription { id = pg_uuid 6; filter = []; max_retries = none }

-- An event whose two tasks share a tracker that lacks one result.
abbrev last_task : DeliveryTask
last_task = record {
  event = sample_event;
  subscription = wide_subscription;
  subscriber = sample_subscriber;
  attempt_num = 0;
  max_retries = pos 5;
  tracker = 4;
}

abbrev waiting_tracker : EventTracker
waiting_tracker = record {
  event = sample_event;
  expected = 2;
  results = (5, record { subscription_id = pg_uuid 5; succeeded = true; exhausted = false }) ∷ [];
}

abbrev tracked : System
tracked = record {
  app = sample_app;
  dispatcher = record new_dispatcher {
    trackers = (4, waiting_tracker) ∷ [];
    registry = (9, 4) ∷ [];
  };
}

is_tracked : lookup 4 tracked.dispatcher.trackers ≡ some waiting_tracker
unfolding lookup
is_tracked = refl

finish_task-finalizes_example :
    let result : DeliveryResult = record {
      subscription_id = pg_uuid 6;
      succeeded = true;
      exhausted = not true;
    } in
    let results = insert 6 result waiting_tracker.results in
    let complete = length results == 2 in
    let after = (finish_task sample_external last_task true tracked).1 in
    (status : DeliveryStatus) × ((status ≡ delivered) ↔ All (λ p. p.1.succeeded ≡ true) results)
    × ((status ≡ delivered) ⊎ (status ≡ failed))
    × (after.app.db.events ≡ (
        if complete
        then update_if
            (λ e. e.id == sample_event.id)
            (set_status status sample_event.retry_count sample_app.now)
            sample_db.events
        else sample_db.events))
    × (after.dispatcher.registry
        ≡ (if complete then erase 9 tracked.dispatcher.registry else tracked.dispatcher.registry))
    × (after.dispatcher.trackers
        ≡ insert 4 (record waiting_tracker { results = results }) tracked.dispatcher.trackers)
finish_task-finalizes_example =
    finish_task-finalizes sample_external last_task true waiting_tracker tracked refl is_tracked
