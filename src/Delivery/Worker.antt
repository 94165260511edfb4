-- ===== src/Delivery/Worker.antt =====
-- `processDeliveryTask` and `finalizeEvent`, and the timer of a retry.
-- A worker holds a semaphore of its subscriber during the request, which Semaphores models: a step
-- here is a task that got it.
use slurpee.Prelude.{
  ℕ, suc, ◌+◌, ◌%◌, ◌^◌, Bool, true, false, not, ◌&&◌, ◌||◌, List, [], ◌∷◌, ◌++◌, if◌then◌else◌,
}
use slurpee.Prelude.Action.{Action, pure, ◌>>=◌, ◌>>◌, modify, on_option}
use slurpee.Prelude.Int.{pos, ltb_ℤ}
use slurpee.Prelude.Keys.{nat_eq, lookup, insert}
use slurpee.Model.{DeliveryStatus, partial, delivered, failed}
use slurpee.External.{External}
use slurpee.Delivery.Backoff.{calculate_backoff, wait_of}
use slurpee.Delivery.State.{
  System, Dispatcher, DeliveryTask, DeliveryResult, EventTracker, in_app, record_result, deregister,
  inflight_done,
}
use slurpee.Delivery.Attempt.{PostOutcome, update_event_status, deliver_to_subscriber}

-- `allSucceeded` and `anyFailed` after the loop of `finalizeEvent`.
unfoldable pub all_succeeded : List (ℕ × DeliveryResult) → Bool
all_succeeded [] = true
all_succeeded ((_, r) ∷ rest) = r.succeeded && all_succeeded rest

unfoldable pub any_failed : List (ℕ × DeliveryResult) → Bool
any_failed [] = false
any_failed ((_, r) ∷ rest) = (not r.succeeded && r.exhausted) || any_failed rest

unfoldable pub final_status : List (ℕ × DeliveryResult) → DeliveryStatus
unfolding all_succeeded any_failed
final_status results =
    if all_succeeded results then delivered else if any_failed results then failed else failed

-- A 32-bit counter.
unfoldable pub increment : ℕ → ℕ
increment n = (n + 1) % 2 ^ 32

-- The task of the next attempt.
unfoldable pub next_task : DeliveryTask → DeliveryTask
unfolding increment
next_task task = record task {
  event = record (task.event) { retry_count = increment task.event.retry_count };
  attempt_num = suc task.attempt_num;
}

-- `inflightWg.Add(1); time.AfterFunc(delay, ...)`
unfoldable pub start_timer : ℕ → DeliveryTask → Dispatcher → Dispatcher
start_timer due task d = record d {
  inflight = suc d.inflight;
  timers = d.timers ++ (due, task) ∷ [];
}

-- The function that `time.AfterFunc` calls: give up on shutdown, or send the task.
unfoldable pub timer_fires : DeliveryTask → Dispatcher → Dispatcher
unfolding inflight_done
timer_fires task d =
    if d.shutdown then inflight_done d else record d { task_queue = d.task_queue ++ task ∷ [] }

module _ {Value : Type 0} (ext : External Value) where
  -- `finalizeEvent`
  unfoldable pub finalize_event : EventTracker → Action System (Unit {0})
  unfolding final_status deregister
  finalize_event t = do
    in_app (update_event_status ext t.event.id t.event.retry_count (final_status t.results))
    modify (λ s. record s { dispatcher = deregister t.event.id s.dispatcher })

  -- What follows `task.tracker.record(result)`, with the tracker at hand.
  unfoldable pub record_on : ℕ → DeliveryResult → EventTracker → Action System (Unit {0})
  unfolding record_result finalize_event
  record_on address result tracker s =
      let (complete, t) = record_result result tracker in
      let d = record (s.dispatcher) { trackers = insert address t s.dispatcher.trackers } in
      (if complete then finalize_event t else pure tt) (record s { dispatcher = d })

  -- `if task.tracker.record(result) { finalizeEvent(...) }`
  unfoldable pub finish_task : DeliveryTask → Bool → Action System (Unit {0})
  unfolding record_on
  finish_task task succeeded s =
      on_option (lookup task.tracker s.dispatcher.trackers) (tt, s)
        λ tracker.
          record_on task.tracker
            (record {
              subscription_id = task.subscription.id;
              succeeded = succeeded;
              exhausted = not succeeded;
            })
            tracker s

  -- The branch that schedules a retry.
  unfoldable pub schedule_retry : DeliveryTask → Action System (Unit {0})
  unfolding next_task start_timer
  schedule_retry task = do
    in_app (update_event_status ext task.event.id (increment task.event.retry_count) partial)
    modify (λ s.
        let delay = calculate_backoff task.attempt_num s.app.config.max_backoff_seconds in
        record s {
          dispatcher = start_timer (s.app.now + wait_of delay) (next_task task) s.dispatcher;
        })

  -- The end of `processDeliveryTask`, once the outcome of the attempt is known.
  unfoldable pub after_attempt : DeliveryTask → Bool → Action System (Unit {0})
  unfolding finish_task schedule_retry
  after_attempt task succeeded =
      if succeeded
      then finish_task task true
      else if not (ltb_ℤ (pos task.attempt_num) task.max_retries)
      then finish_task task false
      else schedule_retry task

  -- `processDeliveryTask`, with its deferred `inflightWg.Done()`.
  unfoldable pub process_delivery_task : DeliveryTask → PostOutcome → Action System (Unit {0})
  unfolding after_attempt inflight_done
  process_delivery_task task outcome = do
    succeeded ← in_app (deliver_to_subscriber ext task.event task.subscriber outcome)
    after_attempt task succeeded
    modify (λ s. record s { dispatcher = inflight_done s.dispatcher })
