-- ===== src/Delivery/State.antt =====
-- The tasks, trackers and dispatcher state of app/delivery.go.
-- Trackers are shared by pointer among the tasks of an event, so they stand on a heap, by address.
-- The capacity of the task queue is not modelled: a send that blocks is one that happens later.
use slurpee.Prelude.{ℕ, suc, ◌-◌, Bool, false, List, [], ◌∷◌, ◌++◌, length}
use slurpee.Prelude.Action.{Action}
use slurpee.Prelude.Int.{ℤ}
use slurpee.Prelude.Keys.{nat_eq, ◌==◌, insert, erase}
use slurpee.Model.{PgUuid, Event, Subscription, Subscriber}
use slurpee.App.{Application}

-- `deliveryTask`
pub record DeliveryTask : Type 0 where
  pub event : Event
  pub subscription : Subscription
  pub subscriber : Subscriber
  pub attempt_num : ℕ
  pub max_retries : ℤ
  pub tracker : ℕ

-- `deliveryResult`
pub record DeliveryResult : Type 0 where
  pub subscription_id : PgUuid
  pub succeeded : Bool
  pub exhausted : Bool

-- `eventTracker`
pub record EventTracker : Type 0 where
  pub event : Event
  pub expected : ℕ
  pub results : List (ℕ × DeliveryResult)

pub record Dispatcher : Type 0 where
  pub task_queue : List DeliveryTask
  -- The retries that `time.AfterFunc` holds, each with the time at which it is due.
  pub timers : List (ℕ × DeliveryTask)
  -- `eventRegistry`: from the bytes of an event's id to the address of its tracker.
  pub registry : List (ℕ × ℕ)
  pub trackers : List (ℕ × EventTracker)
  pub next_tracker : ℕ
  -- The counter of `inflightWg`.
  pub inflight : ℕ
  -- `shutdownCtx` is cancelled.
  pub shutdown : Bool

pub record System : Type 0 where
  pub app : Application
  pub dispatcher : Dispatcher

abbrev pub new_dispatcher : Dispatcher
new_dispatcher = record {
  task_queue = [];
  timers = [];
  registry = [];
  trackers = [];
  next_tracker = 0;
  inflight = 0;
  shutdown = false;
}

unfoldable pub in_app : {A : Type 0} → Action Application A → Action System A
in_app m s = let (x, a) = m s.app in (x, record s { app = a })

-- `tracker.record`: the tracker with the result, and whether all expected results are in.
unfoldable pub record_result : DeliveryResult → EventTracker → Bool × EventTracker
record_result r t =
    let results = insert r.subscription_id.bytes r t.results in
    (length results == t.expected, record t { results = results })

-- `&eventTracker{...}` and `registry.register`: the address, and the state that holds it.
unfoldable pub new_tracker : Event → ℕ → Dispatcher → ℕ × Dispatcher
new_tracker event expected d = (
  d.next_tracker,
  record d {
    trackers =
        insert d.next_tracker (record { event = event; expected = expected; results = [] })
          d.trackers;
    registry = insert event.id.bytes d.next_tracker d.registry;
    next_tracker = suc d.next_tracker;
  },
)

-- `inflightWg.Add(1); taskQueue <- task`
unfoldable pub enqueue : DeliveryTask → Dispatcher → Dispatcher
enqueue task d = record d { inflight = suc d.inflight; task_queue = d.task_queue ++ task ∷ [] }

-- The last loop of `dispatchEvent`.
unfoldable pub enqueue_all : ℕ → List DeliveryTask → Dispatcher → Dispatcher
unfolding enqueue
enqueue_all address [] d = d
enqueue_all address (task ∷ tasks) d =
    enqueue_all address tasks (enqueue (record task { tracker = address }) d)

-- `inflightWg.Done()`
unfoldable pub inflight_done : Dispatcher → Dispatcher
inflight_done d = record d { inflight = d.inflight - 1 }

-- `registry.remove`
unfoldable pub deregister : PgUuid → Dispatcher → Dispatcher
deregister id d = record d { registry = erase id.bytes d.registry }
