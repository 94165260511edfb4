-- ===== src/Examples/Choices.antt =====
-- The choice of subscriptions and subscribers, and the outcome of an event.
use slurpee.Prelude.{
  ◌≡◌, ◌↔◌, refl, true, false, none, some, [], ◌∷◌, find, keep_if, Member, List, if◌then◌else◌,
}
use slurpee.Prelude.Action.{ok, err, other}
use slurpee.Prelude.Int.{pos, negsuc, ◌≤ℤ◌}
use slurpee.Prelude.Keys.{nat_eq, bytes_eq, bytes_beq, lookup, codes, ◌==◌}
use slurpee.Model.{pg_uuid, uuid_eq, Subscription, delivered, failed}
use slurpee.Glob.{subscription_matches}
use slurpee.Db.{Db}
use slurpee.SubscriptionCache.{or_missing, get_matching_subscriptions, get_subscriber_by_id}
use slurpee.SubscriptionCache.Current.{
  IsCurrent, get_matching_subscriptions-IsCurrent, get_subscriber_by_id-IsCurrent,
  get_matching_subscriptions_failed,
}
use slurpee.Delivery.Filter.{matches_filter}
use slurpee.Delivery.Selection.{Groups, effective_max_retries, improve, best_from, choose_best}
use slurpee.Delivery.Choice.{choose_best_chosen, choose_best-none_iff}
use slurpee.Delivery.State.{DeliveryTask, in_app, System, new_dispatcher}
use slurpee.Delivery.Dispatch.{start_tasks, dispatch_event}
use slurpee.Delivery.Attempt.{update_event_status}
use slurpee.Delivery.Recorded.{dispatch_event_recorded}
use slurpee.Db.Events.{set_status}
use slurpee.Glob.{match_like_pattern, replace_byte}
use slurpee.Delivery.Start.{with_tracker, start_tasks_outcome}
use slurpee.Prelude.{is_empty, map, length, ◌+◌, update_if}
use slurpee.Model.{Event, recorded}
use slurpee.Delivery.Dispatch.{
  Subscribers, build_tasks, rebuild_tasks, resume_tasks, dispatch_tasks, Summary,
}
use slurpee.Delivery.Resume.{rebuild_tasks_fresh}
use slurpee.Examples.{
  sample_external, sample_app, sample_db, sample_event, sample_subscription, sample_subscriber,
}

-- Two subscriptions; the second allows more retries, and its filter is absent.
abbrev wide_subscription : Subscription
wide_subscription = record sample_subscription { id = pg_uuid 6; filter = []; max_retries = none }

abbrev two_subscriptions : List Subscription
two_subscriptions = sample_subscription ∷ wide_subscription ∷ []

second_chosen :
    (choose_best sample_external (pos 5) sample_event.content two_subscriptions).subscription
    ≡ some wide_subscription
unfolding choose_best best_from improve effective_max_retries matches_filter lookup bytes_beq
second_chosen = refl

choose_best_chosen_example :
    Member wide_subscription two_subscriptions
    × (matches_filter sample_external wide_subscription.filter sample_event.content ≡ true)
    × ((choose_best sample_external (pos 5) sample_event.content two_subscriptions).max_retries
        ≡ effective_max_retries (pos 5) wide_subscription)
    × ((s : Subscription)
        → Member s two_subscriptions
        → (if matches_filter sample_external s.filter sample_event.content
            then effective_max_retries (pos 5) s ≤ℤ effective_max_retries (pos 5) wide_subscription
            else Unit))
choose_best_chosen_example =
    choose_best_chosen sample_external (pos 5) sample_event.content two_subscriptions
      wide_subscription second_chosen

choose_best-none_iff_example :
    ((choose_best sample_external (negsuc 0) sample_event.content two_subscriptions).subscription
      ≡ none)
    ↔ ((s : Subscription)
        → Member s two_subscriptions
        → (if matches_filter sample_external s.filter sample_event.content
            then effective_max_retries (negsuc 0) s ≤ℤ negsuc 0
            else Unit))
choose_best-none_iff_example =
    choose_best-none_iff sample_external (negsuc 0) sample_event.content two_subscriptions

cold-IsCurrent : IsCurrent (sample_app.subscription_cache, sample_db)
cold-IsCurrent = record { shown = tt }

get_matching_subscriptions-IsCurrent_example :
    let (answer, after) =
      get_matching_subscriptions (codes "order.paid") (sample_app.subscription_cache, sample_db) in
    (answer
      ≡ ok (
          keep_if
            (λ s. subscription_matches s.subject_pattern (codes "order.paid"))
            sample_db.subscriptions))
    × (after.0.loaded ≡ true)
    × (after.1 ≡ sample_db)
    × IsCurrent after
get_matching_subscriptions-IsCurrent_example =
    get_matching_subscriptions-IsCurrent sample_app.subscription_cache sample_db
      (codes "order.paid") refl cold-IsCurrent

get_subscriber_by_id-IsCurrent_example :
    let (answer, after) =
      get_subscriber_by_id (pg_uuid 3) (sample_app.subscription_cache, sample_db) in
    (answer ≡ or_missing (find (λ s. s.id.bytes == 3) sample_db.subscribers))
    × (after.1 ≡ sample_db)
    × IsCurrent after
get_subscriber_by_id-IsCurrent_example =
    get_subscriber_by_id-IsCurrent sample_app.subscription_cache sample_db (pg_uuid 3) refl
      cold-IsCurrent

-- The second query of the load fails.
abbrev half_down : Db
half_down = record sample_db { outages = false ∷ true ∷ [] }

half_failed :
    (get_matching_subscriptions (codes "order.paid") (sample_app.subscription_cache, half_down)).0
    ≡ err other
unfolding get_matching_subscriptions slurpee.SubscriptionCache.load
    slurpee.SubscriptionCache.load_all slurpee.SubscriptionCache.from_db
    slurpee.Db.Subscribers.list_subscribers slurpee.Db.Subscribers.list_all_subscriptions
half_failed = refl

get_matching_subscriptions_failed_example :
    let after =
      (get_matching_subscriptions
        (codes "order.paid")
        (sample_app.subscription_cache, half_down)).1 in
    (other ≡ other)
    × (sample_app.subscription_cache.loaded ≡ false)
    × (after.0 ≡ sample_app.subscription_cache)
    × (record (after.1) { outages = half_down.outages } ≡ half_down)
get_matching_subscriptions_failed_example =
    get_matching_subscriptions_failed sample_app.subscription_cache half_down (codes "order.paid")
      other half_failed

abbrev sample_groups : Groups
sample_groups = (pg_uuid 3, two_subscriptions) ∷ []

abbrev sample_subscribers : Subscribers
sample_subscribers = (pg_uuid 3, sample_subscriber) ∷ []

abbrev reached : Summary
reached = (3, record { subscriber_id = pg_uuid 3; failed_count = 1; succeeded_count = 1 }) ∷ []

rebuild_tasks_fresh_example :
    let tasks =
      rebuild_tasks sample_external
        (λ g. g)
        (pos 5)
        sample_event
        []
        sample_subscribers
        sample_groups in
    (tasks
      ≡ build_tasks sample_external (λ g. g) (pos 5) sample_event sample_subscribers sample_groups)
    × (resume_tasks sample_external (λ g. g) sample_event tasks ≡ (
        if is_empty tasks
        then in_app
            (update_event_status sample_external sample_event.id sample_event.retry_count delivered)
        else start_tasks sample_event tasks))
    × (dispatch_tasks sample_external (λ g. g) sample_event tasks ≡ (
        if is_empty tasks
        then in_app
            (update_event_status sample_external sample_event.id sample_event.retry_count failed)
        else start_tasks sample_event tasks))
rebuild_tasks_fresh_example =
    rebuild_tasks_fresh sample_external (λ g. g) (pos 5) sample_event sample_subscribers
      sample_groups

abbrev sample_tasks : List DeliveryTask
sample_tasks =
    record {
      event = sample_event;
      subscription = wide_subscription;
      subscriber = sample_subscriber;
      attempt_num = 0;
      max_retries = pos 5;
      tracker = 0;
    }
    ∷ []

abbrev idle_system : System
idle_system = record { app = sample_app; dispatcher = new_dispatcher }

start_tasks_outcome_example :
    let d = (start_tasks sample_event sample_tasks idle_system).1.dispatcher in
    (d.task_queue ≡ map (with_tracker 0) sample_tasks)
    × (d.inflight ≡ 0 + length sample_tasks)
    × (lookup 0 d.trackers
        ≡ some (record { event = sample_event; expected = length sample_tasks; results = [] }))
start_tasks_outcome_example = start_tasks_outcome sample_event sample_tasks idle_system

abbrev unmatched_event : Event
unmatched_event = record sample_event { subject = codes "refund" }

nobody :
    keep_if
      (λ sub. subscription_matches sub.subject_pattern unmatched_event.subject)
      sample_db.subscriptions
    ≡ []
unfolding keep_if subscription_matches match_like_pattern replace_byte
nobody = refl

dispatch_event_recorded_example :
    let t = (dispatch_event sample_external (λ g. g) unmatched_event idle_system).1 in
    (t.app.db.events
      ≡ update_if (λ e. e.id == pg_uuid 9) (set_status recorded 0 100) sample_db.events)
    × (t.dispatcher ≡ new_dispatcher)
dispatch_event_recorded_example =
    dispatch_event_recorded sample_external (λ g. g) unmatched_event idle_system refl cold-IsCurrent
      nobody
