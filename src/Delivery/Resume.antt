-- ===== src/Delivery/Resume.antt =====
-- `ResumeUnfinishedDeliveries`, and what `resumePartialEvent` rebuilds.
use slurpee.Prelude.{ℕ, ◌≡◌, is_empty, refl, Option, List, [], ◌∷◌, if◌then◌else◌}
use slurpee.Prelude.Action.{Action, pure, ◌>>=◌, ◌>>◌, on_result, on_option}
use slurpee.Prelude.Int.{ℤ}
use slurpee.Prelude.Keys.{nat_eq, lookup}
use slurpee.Model.{uuid_eq, Event, delivered, failed}
use slurpee.Db.Events.{DeliverySummary, get_resumable_events, is_pending, is_partial}
use slurpee.External.{External}
use slurpee.App.{in_db, send_to_delivery}
use slurpee.Delivery.State.{System, DeliveryTask, in_app}
use slurpee.Delivery.Attempt.{update_event_status}
use slurpee.Delivery.Selection.{Groups}
use slurpee.Delivery.Dispatch.{
  Subscribers, already_succeeded, prior_attempts, build_tasks, rebuild_tasks, resume_tasks,
  dispatch_tasks, start_tasks, resume_partial_event,
}

-- The goroutine that feeds the pending events into `DeliveryChan`. It runs beside the rest; here it
-- comes first.
unfoldable pub send_pending : List Event → Action System (Unit {0})
send_pending [] = pure tt
send_pending (event ∷ events) = do
  if is_pending event.delivery_status then in_app (send_to_delivery event) else pure tt
  send_pending events

-- The successful attempts that a summary counts.
abbrev pub successes : Option DeliverySummary → ℕ
successes o = on_option o 0 (λ s. s.succeeded_count)

module _ {Value : Type 0} (ext : External Value) (order : Groups → Groups) where
  unfoldable pub resume_partials : List Event → Action System (Unit {0})
  unfolding resume_partial_event
  resume_partials [] = pure tt
  resume_partials (event ∷ events) = do
    if is_partial event.delivery_status then resume_partial_event ext order event else pure tt
    resume_partials events

  -- `ResumeUnfinishedDeliveries`
  unfoldable pub resume_unfinished_deliveries : Action System (Unit {0})
  unfolding send_pending resume_partials
  resume_unfinished_deliveries = do
    found ← in_app (in_db get_resumable_events)
    on_result found (λ e. pure tt) λ events. do send_pending events; resume_partials events

  module _ (configured : ℤ) (event : Event) (subscribers : Subscribers) where
    same_tasks :
        (groups : Groups)
        → rebuild_tasks ext order configured event [] subscribers groups
          ≡ build_tasks ext order configured event subscribers groups
    unfolding rebuild_tasks build_tasks already_succeeded prior_attempts lookup
    same_tasks [] = refl
    same_tasks ((id, subs) ∷ rest) = rw (same_tasks rest) refl

    -- A partial event without a recorded attempt gets the tasks of a new one, and if there is any,
    -- they are queued and tracked in the same way. If there is none, the two differ: the resumed
    -- event is written `delivered`, and the new one `failed`.
    pub rebuild_tasks_fresh :
        (groups : Groups)
        → let tasks = rebuild_tasks ext order configured event [] subscribers groups in
          (tasks ≡ build_tasks ext order configured event subscribers groups)
          × (resume_tasks ext order event tasks ≡ (
              if is_empty tasks
              then in_app (update_event_status ext event.id event.retry_count delivered)
              else start_tasks event tasks))
          × (dispatch_tasks ext order event tasks ≡ (
              if is_empty tasks
              then in_app (update_event_status ext event.id event.retry_count failed)
              else start_tasks event tasks))
    unfolding resume_tasks dispatch_tasks
    rebuild_tasks_fresh groups = (
      same_tasks groups,
      resumed (rebuild_tasks ext order configured event [] subscribers groups),
      dispatched (rebuild_tasks ext order configured event [] subscribers groups),
    )
      where
        resumed :
            (tasks : List DeliveryTask)
            → resume_tasks ext order event tasks ≡ (
                if is_empty tasks
                then in_app (update_event_status ext event.id event.retry_count delivered)
                else start_tasks event tasks)
        resumed [] = refl
        resumed (task ∷ tasks) = refl

        dispatched :
            (tasks : List DeliveryTask)
            → dispatch_tasks ext order event tasks ≡ (
                if is_empty tasks
                then in_app (update_event_status ext event.id event.retry_count failed)
                else start_tasks event tasks)
        dispatched [] = refl
        dispatched (task ∷ tasks) = refl
