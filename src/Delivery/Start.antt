-- ===== src/Delivery/Start.antt =====
-- What a started event leaves in the dispatcher.
use slurpee.Prelude.{ℕ, ◌+◌, ◌≡◌, refl, ap, ◌∙◌, List, [], ◌∷◌, ◌++◌, map, some, arith, length}
use slurpee.Prelude.Keys.{nat_eq, lookup, lookup-insert, ==_refl}
use slurpee.Model.{Event}
use slurpee.Delivery.State.{
  System, Dispatcher, DeliveryTask, EventTracker, enqueue, enqueue_all, new_tracker,
}
use slurpee.Delivery.Dispatch.{start_tasks}

-- `tasks[i].tracker = tracker`
abbrev pub with_tracker : ℕ → DeliveryTask → DeliveryTask
with_tracker address task = record task { tracker = address }

append_assoc :
    (xs : List DeliveryTask) (y : DeliveryTask) (zs : List DeliveryTask)
    → (xs ++ y ∷ []) ++ zs ≡ xs ++ y ∷ zs
append_assoc [] y zs = refl
append_assoc (x ∷ xs) y zs = ap (λ l. x ∷ l) (append_assoc xs y zs)

append_nil : (xs : List DeliveryTask) → xs ≡ xs ++ []
append_nil [] = refl
append_nil (x ∷ xs) = ap (λ l. x ∷ l) (append_nil xs)

enqueue_all-queue :
    (address : ℕ) (tasks : List DeliveryTask) (d : Dispatcher)
    → (enqueue_all address tasks d).task_queue ≡ d.task_queue ++ map (with_tracker address) tasks
unfolding enqueue_all enqueue
enqueue_all-queue address [] d = append_nil d.task_queue
enqueue_all-queue address (task ∷ tasks) d =
    enqueue_all-queue address tasks (enqueue (with_tracker address task) d)
    ∙ append_assoc d.task_queue (with_tracker address task) (map (with_tracker address) tasks)

enqueue_all-inflight :
    (address : ℕ) (tasks : List DeliveryTask) (d : Dispatcher)
    → (enqueue_all address tasks d).inflight ≡ d.inflight + length tasks
unfolding enqueue_all enqueue
enqueue_all-inflight address [] d = omega arith
enqueue_all-inflight address (task ∷ tasks) d =
    omega (arith, enqueue_all-inflight address tasks (enqueue (with_tracker address task) d))

enqueue_all-trackers :
    (address : ℕ) (tasks : List DeliveryTask) (d : Dispatcher)
    → (enqueue_all address tasks d).trackers ≡ d.trackers
unfolding enqueue_all enqueue
enqueue_all-trackers address [] d = refl
enqueue_all-trackers address (task ∷ tasks) d =
    enqueue_all-trackers address tasks (enqueue (with_tracker address task) d)

-- Starting an event's tasks queues all of them, in order, behind what is queued, counts each as in
-- flight, and has them share one fresh tracker, which has no result yet and expects as many
-- results as there are tasks.
pub start_tasks_outcome :
    (event : Event) (tasks : List DeliveryTask) (s : System)
    → let d = (start_tasks event tasks s).1.dispatcher in
      let address = s.dispatcher.next_tracker in
      (d.task_queue ≡ s.dispatcher.task_queue ++ map (with_tracker address) tasks)
      × (d.inflight ≡ s.dispatcher.inflight + length tasks)
      × (lookup address d.trackers
          ≡ some (record { event = event; expected = length tasks; results = [] }))
unfolding start_tasks new_tracker
start_tasks_outcome event tasks s =
    let address = s.dispatcher.next_tracker in
    let d = (new_tracker event (length tasks) s.dispatcher).1 in
    let fresh : EventTracker = record { event = event; expected = length tasks; results = [] } in
    (
      enqueue_all-queue address tasks d,
      enqueue_all-inflight address tasks d,
      ap (lookup address) (enqueue_all-trackers address tasks d)
          ∙ lookup-insert address address fresh s.dispatcher.trackers
          ∙ rw (==_refl address) refl,
    )
