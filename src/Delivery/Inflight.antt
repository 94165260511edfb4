-- ===== src/Delivery/Inflight.antt =====
-- The counter of `inflightWg` counts exactly the tasks that are queued or wait for a retry.
use slurpee.Prelude.{
  ap, ℕ, ◌+◌, ◌≡◌, refl, List, [], ◌∷◌, ◌++◌, arith, length, length-append, Bool, true, false, not,
  Option, none, some, if◌then◌else◌,
}
use slurpee.Prelude.Keeps.{Keeps-pure, Keeps-if}
use slurpee.Prelude.Action.{pure, on_option}
use slurpee.Prelude.Keys.{nat_eq, lookup, insert}
use slurpee.External.{External}
use slurpee.App.{Application}
use slurpee.Prelude.Int.{pos, ltb_ℤ}
use slurpee.Delivery.State.{
  System, Dispatcher, DeliveryTask, DeliveryResult, EventTracker, in_app, new_dispatcher,
  inflight_done, deregister, record_result,
}
use slurpee.Delivery.Attempt.{PostOutcome}
use slurpee.Delivery.Worker.{
  process_delivery_task, timer_fires, after_attempt, finish_task, record_on, finalize_event,
  schedule_retry, start_timer,
}
use slurpee.Delivery.Steps.{
  Step, Progress, Reach, progresses, dispatches, resumes, stops, elsewhere, works, fires, here,
  next,
}
use slurpee.Delivery.Balance.{
  IsBalanced, KeepsBalance, dispatch_event-Keeps, resume_partial_event-Keeps,
}

module _ {Value : Type 0} (ext : External Value) where
  finalize_event-Keeps : (n : ℕ) (t : EventTracker) → KeepsBalance n (finalize_event ext t)
  unfolding finalize_event deregister in_app
  finalize_event-Keeps n t = record { at = λ s h. record { counted = h.counted } }

  finalize_if-Keeps :
      (n : ℕ) (t : EventTracker) (complete : Bool)
      → KeepsBalance n (if complete then finalize_event ext t else pure tt)
  finalize_if-Keeps n t true = finalize_event-Keeps n t
  finalize_if-Keeps n t false = Keeps-pure tt

  record_on-Keeps :
      (n address : ℕ) (r : DeliveryResult) (t : EventTracker)
      → KeepsBalance n (record_on ext address r t)
  unfolding record_on
  record_on-Keeps n address r t = record {
    at = λ s h.
        let recorded = record_result r t in
        let d = record (s.dispatcher) {
          trackers = insert address recorded.1 s.dispatcher.trackers;
        } in
        (finalize_if-Keeps n recorded.1 recorded.0).at (record s { dispatcher = d })
          (record { counted = h.counted });
  }

  finish_task-Keeps :
      (n : ℕ) (task : DeliveryTask) (succeeded : Bool)
      → KeepsBalance n (finish_task ext task succeeded)
  unfolding finish_task
  finish_task-Keeps n task succeeded = record {
    at = λ s h. finish (lookup task.tracker s.dispatcher.trackers) s h;
  }
    where
      finish :
          (o : Option EventTracker) (s : System)
          → IsBalanced n s.dispatcher
          → IsBalanced n
              (on_option o
                (tt, s)
                λ tracker.
                  record_on ext task.tracker
                    (record {
                      subscription_id = task.subscription.id;
                      succeeded = succeeded;
                      exhausted = not succeeded;
                    })
                    tracker
                    s).1.dispatcher
      finish none s h = h
      finish (some t) s h = (record_on-Keeps n task.tracker _ t).at s h

  schedule_retry-balance :
      (n : ℕ) (task : DeliveryTask) (s : System)
      → IsBalanced n s.dispatcher
      → IsBalanced n (schedule_retry ext task s).1.dispatcher
  unfolding schedule_retry in_app start_timer
  schedule_retry-balance n task s h = record {
    counted = omega (arith, h, length-append s.dispatcher.timers);
  }

  after_attempt-Keeps :
      (n : ℕ) (task : DeliveryTask) (succeeded : Bool)
      → KeepsBalance n (after_attempt ext task succeeded)
  unfolding after_attempt
  after_attempt-Keeps n task succeeded = Keeps-if succeeded _ _ (finish_task-Keeps n task true) (
      Keeps-if (not (ltb_ℤ (pos task.attempt_num) task.max_retries)) _ (schedule_retry ext task)
        (finish_task-Keeps n task false) (record { at = schedule_retry-balance n task }))

  inflight_done-balance : (d : Dispatcher) → IsBalanced 1 d → IsBalanced 0 (inflight_done d)
  unfolding inflight_done
  inflight_done-balance d h = record { counted = omega (arith, h) }

  process_delivery_task-balance :
      (task : DeliveryTask) (outcome : PostOutcome) (s : System)
      → IsBalanced 1 s.dispatcher
      → IsBalanced 0 (process_delivery_task ext task outcome s).1.dispatcher
  unfolding process_delivery_task in_app
  process_delivery_task-balance task outcome s h =
      inflight_done-balance _ ((after_attempt-Keeps 1 task _).at _ h)

  timer_fires-balance :
      (before after : List (ℕ × DeliveryTask)) (due : ℕ) (task : DeliveryTask) (d : Dispatcher)
      → d.timers ≡ before ++ (due, task) ∷ after
      → IsBalanced 0 d
      → IsBalanced 0 (timer_fires task (record d { timers = before ++ after }))
  unfolding timer_fires inflight_done
  timer_fires-balance before after due task d e h = record {
    counted = ground (
      arith,
      ap length e,
      length-append before after,
      length-append before ((due, task) ∷ after),
      length-append d.task_queue (task ∷ []),
    );
  }

  Progress-balance :
      {s t : System} → Progress ext s t → IsBalanced 0 s.dispatcher → IsBalanced 0 t.dispatcher
  Progress-balance {s} (works task rest outcome e) h =
      process_delivery_task-balance task outcome _
        (record { counted = omega (arith, ap length e, h.counted) })
  Progress-balance {s} (fires before after due task e late) h =
      timer_fires-balance before after due task s.dispatcher e h

  Step-balance :
      {s t : System} → Step ext s t → IsBalanced 0 s.dispatcher → IsBalanced 0 t.dispatcher
  Step-balance (progresses p) h = Progress-balance p h
  Step-balance (dispatches order event rest e) h = (dispatch_event-Keeps ext order 0 event).at _ h
  Step-balance (resumes order event) h = (resume_partial_event-Keeps ext order 0 event).at _ h
  Step-balance stops h = record { counted = h.counted }
  Step-balance (elsewhere app) h = h

  Reach-balance :
      {s t : System} → Reach ext s t → IsBalanced 0 s.dispatcher → IsBalanced 0 t.dispatcher
  Reach-balance here h = h
  Reach-balance (next r st) h = Step-balance st (Reach-balance r h)

  -- The counter of `inflightWg` misses nothing: in every state that the program reaches from its
  -- start, whatever was dispatched, resumed, retried or shut down, a counter of zero means that no
  -- task is queued and that no timer is left that could send one.
  pub Reach-drained :
      (app : Application) {t : System}
      → Reach ext (record { app = app; dispatcher = new_dispatcher }) t
      → t.dispatcher.inflight ≡ 0
      → (t.dispatcher.task_queue ≡ []) × (t.dispatcher.timers ≡ [])
  Reach-drained app {t} r z =
      drained t.dispatcher.task_queue t.dispatcher.timers
        (omega (arith, (Reach-balance r (record { counted = refl })).counted, z))
    where
      drained :
          (queue : List DeliveryTask) (timers : List (ℕ × DeliveryTask))
          → length queue + length timers ≡ 0
          → (queue ≡ []) × (timers ≡ [])
      drained [] [] h = (refl, refl)
      drained [] (x ∷ xs) h = absurd (omega arith)
      drained (x ∷ xs) ts h = absurd (omega arith)
