-- ===== src/Examples/Deliveries.antt =====
-- The dispatcher.
use Prim.Native.Nat.{min}
use slurpee.Prelude.{ℕ, suc, ◌+◌, ◌*◌, ◌≤◌, ◌≡◌, refl, [], ◌∷◌, arith, map}
use slurpee.Prelude.Int.{pos}
use slurpee.Delivery.Backoff.{second, calculate_backoff, calculate_backoff_schedule}
use slurpee.Delivery.State.{new_dispatcher, System, DeliveryTask}
use slurpee.Delivery.Attempt.{not_answered, answered}
use slurpee.Delivery.Dispatch.{dispatch_event}
use slurpee.Delivery.Worker.{process_delivery_task}
use slurpee.Delivery.Steps.{
  Reach, here, next, dispatches, progresses, works, receive_event, receive_task,
}
use slurpee.Delivery.Inflight.{Reach-drained}
use slurpee.Delivery.Termination.{cost, start, work, Run-bounded}
use slurpee.Examples.{
  sample_external, sample_app, sample_event, sample_subscription, sample_subscriber,
}

calculate_backoff_schedule_example :
    (calculate_backoff 0 (pos 300) ≡ min second (300 * second))
    × (calculate_backoff (suc 8) (pos 300) ≡ min (2 * calculate_backoff 8 (pos 300)) (300 * second))
calculate_backoff_schedule_example = calculate_backoff_schedule 8 300 (omega arith)

abbrev sample_task : DeliveryTask
sample_task = record {
  event = sample_event;
  subscription = sample_subscription;
  subscriber = sample_subscriber;
  attempt_num = 0;
  max_retries = pos 2;
  tracker = 0;
}

abbrev idle : System
idle = record { app = sample_app; dispatcher = new_dispatcher }

-- The event of the channel was dispatched, and its task handled by a worker whose request failed.
abbrev dispatched : System
dispatched = (dispatch_event sample_external (λ g. g) sample_event (receive_event [] idle)).1

abbrev one_task : System
one_task = record {
  app = sample_app;
  dispatcher = record new_dispatcher { task_queue = sample_task ∷ []; inflight = 1 };
}

abbrev after_failure : System
after_failure =
    (process_delivery_task sample_external sample_task (not_answered [])
      (receive_task [] one_task)).1

Run-bounded_example : 1 + cost after_failure.dispatcher ≤ cost one_task.dispatcher
Run-bounded_example =
    Run-bounded sample_external (work start (works sample_task [] (not_answered []) refl))

-- The failed request leaves one timer behind, due after a second.
after_failure_test : map (λ p. p.0) after_failure.dispatcher.timers ≡ 1000000100 ∷ []
unfolding slurpee.Delivery.State.in_app slurpee.App.in_subscription_cache
    slurpee.SubscriptionCache.get_matching_subscriptions slurpee.SubscriptionCache.from_db
    slurpee.Db.Subscribers.list_subscribers slurpee.Db.Subscribers.list_all_subscriptions
    slurpee.Prelude.keep_if slurpee.Glob.subscription_matches slurpee.Delivery.Selection.group_from
    slurpee.Delivery.Selection.add_to_group slurpee.Prelude.Keys.lookup
    slurpee.Delivery.Selection.load_subscribers slurpee.SubscriptionCache.get_subscriber_by_id
    slurpee.SubscriptionCache.by_id slurpee.Prelude.Keys.insert slurpee.Model.uuid_beq
    slurpee.Delivery.Selection.choose_best slurpee.App.draw_id slurpee.App.in_db slurpee.App.publish
    slurpee.Db.Events.has_event slurpee.Db.Events.insert_delivery_attempt
    slurpee.Db.Events.set_status slurpee.Db.Events.update_event_delivery_status
    slurpee.Delivery.Attempt.attempt_status_of slurpee.Delivery.Attempt.conclude
    slurpee.Delivery.Attempt.deliver_to_subscriber slurpee.Delivery.Attempt.record_failed_attempt
    slurpee.Delivery.Attempt.update_event_status calculate_backoff slurpee.Delivery.Backoff.wait_of
    slurpee.Delivery.Backoff.delay_seconds slurpee.Delivery.Dispatch.build_tasks
    slurpee.Delivery.Dispatch.cons_option slurpee.Delivery.Dispatch.dispatch_matched
    slurpee.Delivery.Dispatch.dispatch_tasks slurpee.Delivery.Dispatch.start_tasks
    slurpee.Delivery.Dispatch.task_for slurpee.Delivery.Filter.matches_filter
    slurpee.Delivery.Selection.best_from slurpee.Delivery.Selection.effective_max_retries
    slurpee.Delivery.Selection.improve slurpee.Delivery.State.deregister
    slurpee.Delivery.State.enqueue slurpee.Delivery.State.enqueue_all
    slurpee.Delivery.State.inflight_done slurpee.Delivery.State.new_tracker
    slurpee.Delivery.State.record_result slurpee.Delivery.Worker.after_attempt
    slurpee.Delivery.Worker.all_succeeded slurpee.Delivery.Worker.any_failed
    slurpee.Delivery.Worker.final_status slurpee.Delivery.Worker.finalize_event
    slurpee.Delivery.Worker.finish_task slurpee.Delivery.Worker.increment
    slurpee.Delivery.Worker.next_task process_delivery_task slurpee.Delivery.Worker.record_on
    slurpee.Delivery.Worker.schedule_retry slurpee.Delivery.Worker.start_timer
    slurpee.EventBus.publish slurpee.EventBus.draw_stamp slurpee.EventBus.broadcast
    slurpee.EventBus.send_all slurpee.EventBus.try_send slurpee.Glob.match_like_pattern
    slurpee.Glob.replace_byte slurpee.Prelude.Keys.bytes_beq slurpee.Prelude.Keys.erase
    slurpee.Prelude.contains_if slurpee.Prelude.find slurpee.Prelude.update_if
    slurpee.SubscriptionCache.load slurpee.SubscriptionCache.load_all
    slurpee.SubscriptionCache.or_missing slurpee.SubscriptionCache.read_matching
    slurpee.SubscriptionCache.read_subscriber
after_failure_test = refl

handled : System
handled =
    (process_delivery_task sample_external (record sample_task { tracker = 0 }) (answered 200 [] [])
      (receive_task [] dispatched)).1

Reach-handled : Reach sample_external idle handled
unfolding handled dispatch_event slurpee.Delivery.State.in_app slurpee.App.in_subscription_cache
    slurpee.SubscriptionCache.get_matching_subscriptions slurpee.SubscriptionCache.from_db
    slurpee.Db.Subscribers.list_subscribers slurpee.Db.Subscribers.list_all_subscriptions
    slurpee.Prelude.keep_if slurpee.Glob.subscription_matches slurpee.Delivery.Selection.group_from
    slurpee.Delivery.Selection.add_to_group slurpee.Prelude.Keys.lookup
    slurpee.Delivery.Selection.load_subscribers slurpee.SubscriptionCache.get_subscriber_by_id
    slurpee.SubscriptionCache.by_id slurpee.Prelude.Keys.insert slurpee.Model.uuid_beq
    slurpee.Delivery.Selection.choose_best slurpee.App.draw_id slurpee.App.in_db slurpee.App.publish
    slurpee.Db.Events.has_event slurpee.Db.Events.insert_delivery_attempt
    slurpee.Db.Events.set_status slurpee.Db.Events.update_event_delivery_status
    slurpee.Delivery.Attempt.attempt_status_of slurpee.Delivery.Attempt.conclude
    slurpee.Delivery.Attempt.deliver_to_subscriber slurpee.Delivery.Attempt.record_failed_attempt
    slurpee.Delivery.Attempt.update_event_status calculate_backoff slurpee.Delivery.Backoff.wait_of
    slurpee.Delivery.Backoff.delay_seconds slurpee.Delivery.Dispatch.build_tasks
    slurpee.Delivery.Dispatch.cons_option slurpee.Delivery.Dispatch.dispatch_matched
    slurpee.Delivery.Dispatch.dispatch_tasks slurpee.Delivery.Dispatch.start_tasks
    slurpee.Delivery.Dispatch.task_for slurpee.Delivery.Filter.matches_filter
    slurpee.Delivery.Selection.best_from slurpee.Delivery.Selection.effective_max_retries
    slurpee.Delivery.Selection.improve slurpee.Delivery.State.deregister
    slurpee.Delivery.State.enqueue slurpee.Delivery.State.enqueue_all
    slurpee.Delivery.State.inflight_done slurpee.Delivery.State.new_tracker
    slurpee.Delivery.State.record_result slurpee.Delivery.Worker.after_attempt
    slurpee.Delivery.Worker.all_succeeded slurpee.Delivery.Worker.any_failed
    slurpee.Delivery.Worker.final_status slurpee.Delivery.Worker.finalize_event
    slurpee.Delivery.Worker.finish_task slurpee.Delivery.Worker.increment
    slurpee.Delivery.Worker.next_task process_delivery_task slurpee.Delivery.Worker.record_on
    slurpee.Delivery.Worker.schedule_retry slurpee.Delivery.Worker.start_timer
    slurpee.EventBus.publish slurpee.EventBus.draw_stamp slurpee.EventBus.broadcast
    slurpee.EventBus.send_all slurpee.EventBus.try_send slurpee.Glob.match_like_pattern
    slurpee.Glob.replace_byte slurpee.Prelude.Keys.bytes_beq slurpee.Prelude.Keys.erase
    slurpee.Prelude.contains_if slurpee.Prelude.find slurpee.Prelude.update_if
    slurpee.SubscriptionCache.load slurpee.SubscriptionCache.load_all
    slurpee.SubscriptionCache.or_missing slurpee.SubscriptionCache.read_matching
    slurpee.SubscriptionCache.read_subscriber
Reach-handled =
    next (next here (dispatches (λ g. g) sample_event [] refl))
      (progresses (works sample_task [] (answered 200 [] []) queued))
  where
    queued : dispatched.dispatcher.task_queue ≡ sample_task ∷ []
    queued = refl

drained_count : handled.dispatcher.inflight ≡ 0
unfolding handled dispatch_event slurpee.Delivery.State.in_app slurpee.App.in_subscription_cache
    slurpee.SubscriptionCache.get_matching_subscriptions slurpee.SubscriptionCache.from_db
    slurpee.Db.Subscribers.list_subscribers slurpee.Db.Subscribers.list_all_subscriptions
    slurpee.Prelude.keep_if slurpee.Glob.subscription_matches slurpee.Delivery.Selection.group_from
    slurpee.Delivery.Selection.add_to_group slurpee.Prelude.Keys.lookup
    slurpee.Delivery.Selection.load_subscribers slurpee.SubscriptionCache.get_subscriber_by_id
    slurpee.SubscriptionCache.by_id slurpee.Prelude.Keys.insert slurpee.Model.uuid_beq
    slurpee.Delivery.Selection.choose_best slurpee.App.draw_id slurpee.App.in_db slurpee.App.publish
    slurpee.Db.Events.has_event slurpee.Db.Events.insert_delivery_attempt
    slurpee.Db.Events.set_status slurpee.Db.Events.update_event_delivery_status
    slurpee.Delivery.Attempt.attempt_status_of slurpee.Delivery.Attempt.conclude
    slurpee.Delivery.Attempt.deliver_to_subscriber slurpee.Delivery.Attempt.record_failed_attempt
    slurpee.Delivery.Attempt.update_event_status calculate_backoff slurpee.Delivery.Backoff.wait_of
    slurpee.Delivery.Backoff.delay_seconds slurpee.Delivery.Dispatch.build_tasks
    slurpee.Delivery.Dispatch.cons_option slurpee.Delivery.Dispatch.dispatch_matched
    slurpee.Delivery.Dispatch.dispatch_tasks slurpee.Delivery.Dispatch.start_tasks
    slurpee.Delivery.Dispatch.task_for slurpee.Delivery.Filter.matches_filter
    slurpee.Delivery.Selection.best_from slurpee.Delivery.Selection.effective_max_retries
    slurpee.Delivery.Selection.improve slurpee.Delivery.State.deregister
    slurpee.Delivery.State.enqueue slurpee.Delivery.State.enqueue_all
    slurpee.Delivery.State.inflight_done slurpee.Delivery.State.new_tracker
    slurpee.Delivery.State.record_result slurpee.Delivery.Worker.after_attempt
    slurpee.Delivery.Worker.all_succeeded slurpee.Delivery.Worker.any_failed
    slurpee.Delivery.Worker.final_status slurpee.Delivery.Worker.finalize_event
    slurpee.Delivery.Worker.finish_task slurpee.Delivery.Worker.increment
    slurpee.Delivery.Worker.next_task process_delivery_task slurpee.Delivery.Worker.record_on
    slurpee.Delivery.Worker.schedule_retry slurpee.Delivery.Worker.start_timer
    slurpee.EventBus.publish slurpee.EventBus.draw_stamp slurpee.EventBus.broadcast
    slurpee.EventBus.send_all slurpee.EventBus.try_send slurpee.Glob.match_like_pattern
    slurpee.Glob.replace_byte slurpee.Prelude.Keys.bytes_beq slurpee.Prelude.Keys.erase
    slurpee.Prelude.contains_if slurpee.Prelude.find slurpee.Prelude.update_if
    slurpee.SubscriptionCache.load slurpee.SubscriptionCache.load_all
    slurpee.SubscriptionCache.or_missing slurpee.SubscriptionCache.read_matching
    slurpee.SubscriptionCache.read_subscriber
drained_count = refl

Reach-drained_example : (handled.dispatcher.task_queue ≡ []) × (handled.dispatcher.timers ≡ [])
Reach-drained_example = Reach-drained sample_external sample_app Reach-handled drained_count
