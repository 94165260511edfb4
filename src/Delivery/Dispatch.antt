-- ===== src/Delivery/Dispatch.antt =====
-- `dispatchEvent` and `resumePartialEvent`.
use slurpee.Prelude.{ℕ, Bool, false, Option, none, some, List, [], ◌∷◌, length, ltb, if◌then◌else◌}
use slurpee.Prelude.Action.{Action, pure, ◌>>=◌, gets, on_result, on_option}
use slurpee.Prelude.Int.{ℤ}
use slurpee.Prelude.Keys.{nat_eq, lookup, insert}
use slurpee.Model.{PgUuid, uuid_eq, Subscription, Subscriber, Event, failed, recorded, delivered}
use slurpee.Db.Events.{DeliverySummary, get_delivery_summary_for_event}
use slurpee.External.{External}
use slurpee.SubscriptionCache
use slurpee.App.{in_db, in_subscription_cache}
use slurpee.Delivery.State.{System, DeliveryTask, in_app, new_tracker, enqueue_all}
use slurpee.Delivery.Attempt.{update_event_status}
use slurpee.Delivery.Selection.{Groups, Best, group_from, load_subscribers, choose_best}

abbrev pub Subscribers : Type 0
Subscribers = List (PgUuid × Subscriber)

-- A task that `tasks = append(tasks, ...)` adds, if a subscription was chosen.
unfoldable pub task_for : Event → ℕ → Subscriber → Best → Option DeliveryTask
task_for event attempt_num subscriber best = on_option best.subscription none λ sub. some (record {
  event = event;
  subscription = sub;
  subscriber = subscriber;
  attempt_num = attempt_num;
  max_retries = best.max_retries;
  tracker = 0;
})

unfoldable pub cons_option : {A : Type 0} → Option A → List A → List A
cons_option none rest = rest
cons_option (some a) rest = a ∷ rest

-- `tracker := ...; registry.register(...)`, and the loop that enqueues the tasks.
unfoldable pub start_tasks : Event → List DeliveryTask → Action System (Unit {0})
unfolding new_tracker enqueue_all
start_tasks event tasks s =
    let (address, d) = new_tracker event (length tasks) s.dispatcher in
    (tt, record s { dispatcher = enqueue_all address tasks d })

-- `summaryMap`
abbrev pub Summary : Type 0
Summary = List (ℕ × DeliverySummary)

unfoldable pub summary_map : Summary → List DeliverySummary → Summary
summary_map m [] = m
summary_map m (s ∷ rest) = summary_map (insert s.subscriber_id.bytes s m) rest

-- `ss, found := summaryMap[...]; found && ss.succeededCount > 0`
unfoldable pub already_succeeded : Option DeliverySummary → Bool
already_succeeded none = false
already_succeeded (some s) = ltb 0 s.succeeded_count

unfoldable pub prior_attempts : Option DeliverySummary → ℕ
prior_attempts none = 0
prior_attempts (some s) = s.failed_count

module _ {Value : Type 0} (ext : External Value) (order : Groups → Groups) where
  -- The loop of `dispatchEvent` that builds the tasks.
  unfoldable pub build_tasks : ℤ → Event → Subscribers → Groups → List DeliveryTask
  unfolding cons_option task_for
  build_tasks configured event subscribers [] = []
  build_tasks configured event subscribers ((id, subs) ∷ rest) =
      let others = build_tasks configured event subscribers rest in
      on_option (lookup id subscribers) others λ subscriber.
        cons_option (task_for event 0 subscriber (choose_best ext configured event.content subs))
          others

  -- The last part of `dispatchEvent`.
  unfoldable pub dispatch_tasks : Event → List DeliveryTask → Action System (Unit {0})
  unfolding start_tasks
  dispatch_tasks event [] = in_app (update_event_status ext event.id event.retry_count failed)
  dispatch_tasks event (task ∷ tasks) = start_tasks event (task ∷ tasks)

  -- `dispatchEvent` with the matching subscriptions at hand.
  unfoldable pub dispatch_matched : Event → List Subscription → Action System (Unit {0})
  unfolding dispatch_tasks build_tasks
  dispatch_matched event [] = in_app (update_event_status ext event.id event.retry_count recorded)
  dispatch_matched event (sub ∷ subs) = do
    let groups = order (group_from [] (sub ∷ subs))
    subscribers ← in_app (load_subscribers groups)
    configured ← gets (λ s. s.app.config.max_retries)
    dispatch_tasks event (build_tasks configured event subscribers groups)

  -- `dispatchEvent`
  unfoldable pub dispatch_event : Event → Action System (Unit {0})
  unfolding dispatch_matched
  dispatch_event event = do
    matched ←
        in_app (in_subscription_cache (SubscriptionCache.get_matching_subscriptions event.subject))
    on_result matched (λ e. in_app (update_event_status ext event.id event.retry_count failed))
        (dispatch_matched event)

  -- The loop of `resumePartialEvent` that builds the tasks.
  unfoldable pub rebuild_tasks : ℤ → Event → Summary → Subscribers → Groups → List DeliveryTask
  unfolding cons_option task_for already_succeeded prior_attempts
  rebuild_tasks configured event summary subscribers [] = []
  rebuild_tasks configured event summary subscribers ((id, subs) ∷ rest) =
      let others = rebuild_tasks configured event summary subscribers rest in
      let history = lookup id.bytes summary in
      on_option (lookup id subscribers) others λ subscriber.
        if already_succeeded history
        then others
        else cons_option
            (task_for event (prior_attempts history) subscriber
              (choose_best ext configured event.content subs))
            others

  unfoldable pub resume_tasks : Event → List DeliveryTask → Action System (Unit {0})
  unfolding start_tasks
  resume_tasks event [] = in_app (update_event_status ext event.id event.retry_count delivered)
  resume_tasks event (task ∷ tasks) = start_tasks event (task ∷ tasks)

  unfoldable pub resume_matched : Event → Summary → List Subscription → Action System (Unit {0})
  unfolding resume_tasks rebuild_tasks
  resume_matched event summary [] =
      in_app (update_event_status ext event.id event.retry_count recorded)
  resume_matched event summary (sub ∷ subs) = do
    let groups = order (group_from [] (sub ∷ subs))
    subscribers ← in_app (load_subscribers groups)
    configured ← gets (λ s. s.app.config.max_retries)
    resume_tasks event (rebuild_tasks configured event summary subscribers groups)

  -- `resumePartialEvent`
  unfoldable pub resume_partial_event : Event → Action System (Unit {0})
  unfolding resume_matched summary_map
  resume_partial_event event = do
    summary ← in_app (in_db (get_delivery_summary_for_event event.id))
    on_result summary (λ e. pure tt)
        λ rows. do
          matched ←
              in_app
                (in_subscription_cache (SubscriptionCache.get_matching_subscriptions event.subject))
          on_result matched (λ e. pure tt) (resume_matched event (summary_map [] rows))
