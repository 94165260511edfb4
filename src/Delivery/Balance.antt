-- ===== src/Delivery/Balance.antt =====
-- Dispatching and resuming keep the count of tasks in flight.
use slurpee.Prelude.{ℕ, ◌+◌, ◌≡◌, List, [], ◌∷◌, arith, length, length-append}
use slurpee.Prelude.Keeps.{Keeps, Keeps-pure, Keeps-gets, Keeps-bind, Keeps-on_result}
use slurpee.Prelude.Action.{Action, pure, gets}
use slurpee.Model.{Event, Subscription}
use slurpee.Prelude.Keys.{nat_eq}
use slurpee.External.{External}
use slurpee.App.{Application, in_db, in_subscription_cache}
use slurpee.SubscriptionCache
use slurpee.Db.Events.{get_delivery_summary_for_event}
use slurpee.Delivery.State.{
  System, Dispatcher, DeliveryTask, in_app, enqueue, enqueue_all, new_tracker,
}
use slurpee.Delivery.Selection.{Groups, group_from, load_subscribers}
use slurpee.Delivery.Dispatch.{
  Summary, summary_map, build_tasks, rebuild_tasks, start_tasks, dispatch_tasks, dispatch_matched,
  dispatch_event, resume_tasks, resume_matched, resume_partial_event,
}

-- With `extra` tasks in the hands of a worker.
pub record IsBalanced (extra : ℕ) (d : Dispatcher) : Type 0 where
  pub counted : length d.task_queue + length d.timers + extra ≡ d.inflight

abbrev pub KeepsBalance : {A : Type 0} → ℕ → Action System A → Type 0
KeepsBalance n m = Keeps (λ s. IsBalanced n s.dispatcher) m

module _ (n : ℕ) where
  pub in_app-Keeps : {A : Type 0} (m : Action Application A) → KeepsBalance n (in_app m)
  unfolding in_app
  in_app-Keeps m = record { at = λ s h. h }

  enqueue_all-balance :
      (address : ℕ) (tasks : List DeliveryTask) (d : Dispatcher)
      → IsBalanced n d
      → IsBalanced n (enqueue_all address tasks d)
  unfolding enqueue_all
  enqueue_all-balance address [] d h = h
  enqueue_all-balance address (task ∷ tasks) d h =
      enqueue_all-balance address tasks (enqueue (record task { tracker = address }) d) (record {
        counted =
            omega (arith, h, length-append d.task_queue (record task { tracker = address } ∷ []));
      })

  start_tasks-Keeps :
      (event : Event) (tasks : List DeliveryTask) → KeepsBalance n (start_tasks event tasks)
  unfolding start_tasks new_tracker
  start_tasks-Keeps event tasks = record {
    at = λ s h.
        enqueue_all-balance s.dispatcher.next_tracker tasks
          (new_tracker event (length tasks) s.dispatcher).1 (record { counted = h.counted });
  }

module _ {Value : Type 0} (ext : External Value) (order : Groups → Groups) (n : ℕ) where
  dispatch_tasks-Keeps :
      (event : Event) (tasks : List DeliveryTask)
      → KeepsBalance n (dispatch_tasks ext order event tasks)
  unfolding dispatch_tasks
  dispatch_tasks-Keeps event [] = in_app-Keeps n _
  dispatch_tasks-Keeps event (task ∷ tasks) = start_tasks-Keeps n event (task ∷ tasks)

  dispatch_matched-Keeps :
      (event : Event) (subs : List Subscription)
      → KeepsBalance n (dispatch_matched ext order event subs)
  unfolding dispatch_matched in_app
  dispatch_matched-Keeps event [] = in_app-Keeps n _
  dispatch_matched-Keeps event (sub ∷ subs) =
      let groups = order (group_from [] (sub ∷ subs)) in
      Keeps-bind (in_app (load_subscribers groups)) _ (in_app-Keeps n (load_subscribers groups))
        λ subscribers.
          Keeps-bind (gets (λ s. s.app.config.max_retries)) _ (Keeps-gets _) λ configured.
            dispatch_tasks-Keeps event (build_tasks ext order configured event subscribers groups)

  pub dispatch_event-Keeps : (event : Event) → KeepsBalance n (dispatch_event ext order event)
  unfolding dispatch_event in_app
  dispatch_event-Keeps event = record {
    at = λ s h.
        (Keeps-on_result _ _ _ (λ e. in_app-Keeps n _) (dispatch_matched-Keeps event)).at _ h;
  }

  resume_tasks-Keeps :
      (event : Event) (tasks : List DeliveryTask)
      → KeepsBalance n (resume_tasks ext order event tasks)
  unfolding resume_tasks
  resume_tasks-Keeps event [] = in_app-Keeps n _
  resume_tasks-Keeps event (task ∷ tasks) = start_tasks-Keeps n event (task ∷ tasks)

  resume_matched-Keeps :
      (event : Event) (summary : Summary) (subs : List Subscription)
      → KeepsBalance n (resume_matched ext order event summary subs)
  unfolding resume_matched in_app
  resume_matched-Keeps event summary [] = in_app-Keeps n _
  resume_matched-Keeps event summary (sub ∷ subs) =
      let groups = order (group_from [] (sub ∷ subs)) in
      Keeps-bind (in_app (load_subscribers groups)) _ (in_app-Keeps n (load_subscribers groups))
        λ subscribers.
          Keeps-bind (gets (λ s. s.app.config.max_retries)) _ (Keeps-gets _) λ configured.
            resume_tasks-Keeps event
              (rebuild_tasks ext order configured event summary subscribers groups)

  pub resume_partial_event-Keeps :
      (event : Event) → KeepsBalance n (resume_partial_event ext order event)
  unfolding resume_partial_event in_app
  resume_partial_event-Keeps event =
      let summary = in_app (in_db (get_delivery_summary_for_event event.id)) in
      let matched =
        in_app
          (in_subscription_cache (SubscriptionCache.get_matching_subscriptions event.subject)) in
      Keeps-bind summary _ (in_app-Keeps n (in_db (get_delivery_summary_for_event event.id)))
        λ summarised.
          Keeps-on_result summarised (λ e. pure tt) _ (λ e. Keeps-pure tt)
            λ rows.
              Keeps-bind matched _
                (in_app-Keeps n (
                  in_subscription_cache
                    (SubscriptionCache.get_matching_subscriptions event.subject)))
                λ found.
                  Keeps-on_result found (λ e. pure tt)
                    (resume_matched ext order event (summary_map [] rows)) (λ e. Keeps-pure tt)
                    (resume_matched-Keeps event (summary_map [] rows))
