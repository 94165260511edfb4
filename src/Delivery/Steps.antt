-- ===== src/Delivery/Steps.antt =====
-- The dispatcher, the workers, the timers and everything else of the program as interleaved steps.
-- A worker's handling of a task is one step, with the outcome of its request chosen freely; the
-- order in which a Go map is iterated is chosen freely at each step that iterates one.
use slurpee.Prelude.{ℕ, ◌≤◌, ◌≡◌, true, List, ◌∷◌, ◌++◌}
use slurpee.Model.{Event}
use slurpee.External.{External}
use slurpee.App.{Application}
use slurpee.Delivery.State.{System, DeliveryTask}
use slurpee.Delivery.Attempt.{PostOutcome}
use slurpee.Delivery.Selection.{Groups}
use slurpee.Delivery.Dispatch.{dispatch_event, resume_partial_event}
use slurpee.Delivery.Worker.{process_delivery_task, timer_fires}

-- `for event := range slurpee.DeliveryChan`
abbrev pub receive_event : List Event → System → System
receive_event rest s = record s { app = record (s.app) { delivery_chan = rest } }

-- `for task := range taskQueue`
abbrev pub receive_task : List DeliveryTask → System → System
receive_task rest s = record s { dispatcher = record (s.dispatcher) { task_queue = rest } }

abbrev pub drop_timer : List (ℕ × DeliveryTask) → System → System
drop_timer timers s = record s { dispatcher = record (s.dispatcher) { timers = timers } }

module _ {Value : Type 0} (ext : External Value) where
  -- The steps that work off what was dispatched.
  pub data Progress (s : System) : System → Type 0 where
    works :
        (task : DeliveryTask) (rest : List DeliveryTask) (outcome : PostOutcome)
        → s.dispatcher.task_queue ≡ task ∷ rest
        → Progress s (process_delivery_task ext task outcome (receive_task rest s)).1
    fires :
        (before after : List (ℕ × DeliveryTask)) (due : ℕ) (task : DeliveryTask)
        → s.dispatcher.timers ≡ before ++ (due, task) ∷ after
        → due ≤ s.app.now
        → Progress s (record s {
          dispatcher = timer_fires task (record (s.dispatcher) { timers = before ++ after });
        })

  pub data Step (s : System) : System → Type 0 where
    progresses : {t : System} → Progress s t → Step s t
    dispatches :
        (order : Groups → Groups) (event : Event) (rest : List Event)
        → s.app.delivery_chan ≡ event ∷ rest
        → Step s (dispatch_event ext order event (receive_event rest s)).1
    resumes :
        (order : Groups → Groups) (event : Event)
        → Step s (resume_partial_event ext order event s).1
    stops : Step s (record s { dispatcher = record (s.dispatcher) { shutdown = true } })
    -- Handlers, the clock and the database change the application in any way.
    elsewhere : (app : Application) → Step s (record s { app = app })

  pub data Reach (s : System) : System → Type 0 where
    here : Reach s s
    next : {t u : System} → Reach s t → Step t u → Reach s u
