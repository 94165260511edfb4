-- ===== src/Delivery/Termination.antt =====
-- Retries end: a bound on the work that what is queued and what waits can still cause.
use slurpee.Prelude.{
  ℕ, suc, ◌+◌, ◌-◌, ◌*◌, ◌≤◌, ◌<◌, ◌≡◌, refl, Bool, true, false, List, [], ◌∷◌, ◌++◌, Option, none,
  some, Bool-cases, inl, inr, arith, ap, if◌then◌else◌,
}
use slurpee.Prelude.Action.{pure, on_option}
use slurpee.Prelude.Int.{pos_part, ltb_ℤ, pos}
use slurpee.Prelude.Keys.{nat_eq, lookup, insert}
use slurpee.External.{External}
use slurpee.App.{Application}
use slurpee.Delivery.State.{
  System, Dispatcher, DeliveryTask, DeliveryResult, EventTracker, in_app, record_result, deregister,
  inflight_done,
}
use slurpee.Delivery.Worker.{
  process_delivery_task, after_attempt, finish_task, record_on, finalize_event, schedule_retry,
  start_timer, timer_fires, next_task,
}
use slurpee.Delivery.Steps.{Progress, works, fires}

-- How many retries a task still has.
abbrev pub retries_left : DeliveryTask → ℕ
retries_left task = pos_part task.max_retries - task.attempt_num

abbrev pub queue_cost : List DeliveryTask → ℕ
queue_cost [] = 0
queue_cost (task ∷ rest) = 2 * retries_left task + 1 + queue_cost rest

abbrev pub timer_cost : List (ℕ × DeliveryTask) → ℕ
timer_cost [] = 0
timer_cost ((_, task) ∷ rest) = 2 * retries_left task + 2 + timer_cost rest

abbrev pub cost : Dispatcher → ℕ
cost d = queue_cost d.task_queue + timer_cost d.timers

queue_cost-append :
    (xs ys : List DeliveryTask) → queue_cost (xs ++ ys) ≡ queue_cost xs + queue_cost ys
queue_cost-append [] ys = omega arith
queue_cost-append (x ∷ xs) ys = omega (arith, queue_cost-append xs ys)

timer_cost-append :
    (xs ys : List (ℕ × DeliveryTask)) → timer_cost (xs ++ ys) ≡ timer_cost xs + timer_cost ys
timer_cost-append [] ys = omega arith
timer_cost-append (x ∷ xs) ys = omega (arith, timer_cost-append xs ys)

start_timer-cost :
    (due : ℕ) (task : DeliveryTask) (d : Dispatcher)
    → ltb_ℤ (pos task.attempt_num) task.max_retries ≡ true
    → cost (start_timer due (next_task task) d) < 2 * retries_left task + 1 + cost d
unfolding start_timer next_task
start_timer-cost due task d h =
    ground (arith, timer_cost-append d.timers ((due, next_task task) ∷ []))

module _ {Value : Type 0} (ext : External Value) where
  finalize_if-cost :
      (complete : Bool) (t : EventTracker) (s : System)
      → cost ((if complete then finalize_event ext t else pure tt) s).1.dispatcher
        ≡ cost s.dispatcher
  unfolding finalize_event deregister in_app
  finalize_if-cost true t s = refl
  finalize_if-cost false t s = refl

  record_on-cost :
      (address : ℕ) (r : DeliveryResult) (t : EventTracker) (s : System)
      → cost (record_on ext address r t s).1.dispatcher ≡ cost s.dispatcher
  unfolding record_on
  record_on-cost address r t s =
      let recorded = record_result r t in
      finalize_if-cost recorded.0 recorded.1 (record s {
        dispatcher = record (s.dispatcher) {
          trackers = insert address recorded.1 s.dispatcher.trackers;
        };
      })

  on_tracker-cost :
      (o : Option EventTracker) (address : ℕ) (r : DeliveryResult) (s : System)
      → cost (on_option o (tt, s) λ tracker. record_on ext address r tracker s).1.dispatcher
        ≡ cost s.dispatcher
  on_tracker-cost none address r s = refl
  on_tracker-cost (some t) address r s = record_on-cost address r t s

  finish_task-cost :
      (task : DeliveryTask) (succeeded : Bool) (s : System)
      → cost (finish_task ext task succeeded s).1.dispatcher ≡ cost s.dispatcher
  unfolding finish_task
  finish_task-cost task succeeded s =
      on_tracker-cost (lookup task.tracker s.dispatcher.trackers) task.tracker _ s

  schedule_retry-cost :
      (task : DeliveryTask) (s : System)
      → ltb_ℤ (pos task.attempt_num) task.max_retries ≡ true
      → cost (schedule_retry ext task s).1.dispatcher
        < 2 * retries_left task + 1 + cost s.dispatcher
  unfolding schedule_retry in_app
  schedule_retry-cost task s h = start_timer-cost _ task s.dispatcher h

  after_attempt-cost :
      (task : DeliveryTask) (succeeded : Bool) (s : System)
      → cost (after_attempt ext task succeeded s).1.dispatcher
        < 2 * retries_left task + 1 + cost s.dispatcher
  unfolding after_attempt
  after_attempt-cost task true s = omega (arith, finish_task-cost task true s)
  after_attempt-cost task false s =
      elim (Bool-cases (ltb_ℤ (pos task.attempt_num) task.max_retries)) [
        | inl more ↦ rw more (schedule_retry-cost task s more)
        | inr last ↦ rw last (omega (arith, finish_task-cost task false s))
      ]

  -- Every step that works off a task or fires a timer brings the bound down.
  Progress-cost : {s t : System} → Progress ext s t → cost t.dispatcher < cost s.dispatcher
  unfolding process_delivery_task in_app inflight_done timer_fires
  Progress-cost {s} (works task rest outcome e) =
      omega (arith, ap queue_cost e, after_attempt-cost task _ _)
  Progress-cost {s} (fires before after due task e late) = ground (
    arith,
    ap timer_cost e,
    timer_cost-append before after,
    timer_cost-append before ((due, task) ∷ after),
    queue_cost-append s.dispatcher.task_queue (task ∷ []),
  )

  -- A run without new events: workers and timers, while the rest of the program does as it likes.
  pub data Run (s : System) : ℕ → System → Type 0 where
    start : Run s 0 s
    work : {n : ℕ} {t u : System} → Run s n t → Progress ext t u → Run s (suc n) u
    elsewhere :
        {n : ℕ} {t : System} (app : Application) → Run s n t → Run s n (record t { app = app })
    stop :
        {n : ℕ} {t : System}
        → Run s n t
        → Run s n (record t { dispatcher = record (t.dispatcher) { shutdown = true } })

  -- Retries always come to an end: however the requests turn out and whatever the rest of the
  -- program does to the application in between, the number of tasks worked off and timers fired
  -- before the next dispatch or resumption is bounded by the state alone, at one or two for each
  -- task in hand and two for each retry that it still has.
  pub Run-bounded : {s t : System} {n : ℕ} → Run s n t → n + cost t.dispatcher ≤ cost s.dispatcher
  Run-bounded start = omega arith
  Run-bounded (work r p) = omega (arith, Run-bounded r, Progress-cost p)
  Run-bounded (elsewhere app r) = Run-bounded r
  Run-bounded (stop r) = Run-bounded r
