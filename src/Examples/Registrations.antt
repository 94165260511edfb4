-- ===== src/Examples/Registrations.antt =====
-- A registration that changes one subscription, adds one and deletes one.
use slurpee.Prelude.{ℕ, ◌≡◌, refl, arith, false, none, some, List, [], ◌∷◌, keep_if, contains_if}
use slurpee.Prelude.Int.{pos}
use slurpee.Prelude.Keys.{codes, bytes_eq, bytes_beq}
use slurpee.Model.{pg_uuid, uuid_eq, uuid_beq, Subscription}
use slurpee.Db.Subscribers.{owned_by}
use slurpee.App.{Application}
use slurpee.Api.Subscribers.{SubscriptionRequest, sync}
use slurpee.Api.Subscribers.Entries.{IsUnique, nothing, has_id, insert-IsUnique}
use slurpee.Api.Subscribers.Rows.{IsReady}
use slurpee.Api.Subscribers.Registration.{Registers, sync-Registers}
use slurpee.Examples.{
  sample_external, sample_app, sample_db, sample_subscriber, sample_subscription,
}

abbrev old_subscription : Subscription
old_subscription = record sample_subscription { id = pg_uuid 6; subject_pattern = codes "refund.*" }

abbrev two_subscriptions : Application
two_subscriptions = record sample_app {
  db = record sample_db { subscriptions = sample_subscription ∷ old_subscription ∷ [] };
}

abbrev requests : List SubscriptionRequest
requests =
    record { subject_pattern = codes "order.*"; filter = codes "null"; max_retries = some (pos 5) }
    ∷ record { subject_pattern = codes "user.*"; filter = codes "{ab"; max_retries = none }
    ∷ []

two-IsUnique : IsUnique (sample_subscription ∷ old_subscription ∷ [])
unfolding contains_if keep_if uuid_beq
two-IsUnique =
    insert-IsUnique old_subscription (sample_subscription ∷ []) refl
      (insert-IsUnique sample_subscription [] refl (record { at = λ id. nothing refl }))

distinct_ids : (j k : ℕ) → sample_external.new_v7 j ≡ sample_external.new_v7 k → j ≡ k
distinct_ids j k same = omega (arith, same)

fresh_ids :
    (k : ℕ)
    → contains_if (has_id (pg_uuid (sample_external.new_v7 k))) two_subscriptions.db.subscriptions
      ≡ false
unfolding contains_if uuid_beq
fresh_ids k = ground arith

two-IsReady : IsReady sample_external sample_subscriber.id two_subscriptions
unfolding contains_if uuid_beq
two-IsReady = record {
  up = refl;
  known = refl;
  unique = two-IsUnique;
  fresh = λ k late. fresh_ids k;
}

sync-Registers_example :
    Registers requests sample_subscriber
      (sync sample_external requests sample_subscriber two_subscriptions)
unfolding bytes_beq keep_if uuid_beq owned_by
sync-Registers_example =
    sync-Registers sample_external distinct_ids requests sample_subscriber two_subscriptions
      two-IsReady ((refl, tt), (tt, tt)) ((refl, tt), (tt, tt))
