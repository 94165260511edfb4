-- ===== src/Delivery/Selection.antt =====
-- The part that `dispatchEvent` and `resumePartialEvent` share: group the matching subscriptions by
-- subscriber, load the subscribers, and pick one subscription for each.
-- A Go map is iterated in any order: `order` is the one that the runtime chose for this run.
use slurpee.Prelude.{Option, none, some, List, [], ◌∷◌, ◌++◌, if◌then◌else◌}
use slurpee.Prelude.Action.{Action, pure, ◌>>=◌, on_result, on_option}
use slurpee.Prelude.Int.{ℤ, negsuc, ltb_ℤ}
use slurpee.Prelude.Keys.{Bytes, ◌==◌, insert}
use slurpee.Model.{PgUuid, uuid_eq, Subscription, Subscriber}
use slurpee.External.{External}
use slurpee.SubscriptionCache
use slurpee.App.{Application, in_subscription_cache}
use slurpee.Delivery.Filter.{matches_filter}

abbrev pub Groups : Type 0
Groups = List (PgUuid × List Subscription)

-- `subscriberSubs[sub.SubscriberID] = append(subscriberSubs[sub.SubscriberID], sub)`
unfoldable pub add_to_group : Subscription → Groups → Groups
add_to_group sub [] = (sub.subscriber_id, sub ∷ []) ∷ []
add_to_group sub ((id, subs) ∷ rest) =
    if id == sub.subscriber_id
    then (id, subs ++ sub ∷ []) ∷ rest
    else (id, subs) ∷ add_to_group sub rest

unfoldable pub group_from : Groups → List Subscription → Groups
group_from groups [] = groups
group_from groups (sub ∷ rest) = group_from (add_to_group sub groups) rest

-- The loop that loads the subscriber of each group; one that cannot be loaded is left out.
unfoldable pub load_subscribers : Groups → Action Application (List (PgUuid × Subscriber))
load_subscribers [] = pure []
load_subscribers ((id, _) ∷ rest) = do
  found ← in_subscription_cache (SubscriptionCache.get_subscriber_by_id id)
  others ← load_subscribers rest
  pure (on_result found (λ e. others) (λ s. insert id s others))

-- `bestSub` and `bestMaxRetries`
pub record Best : Type 0 where
  pub subscription : Option Subscription
  pub max_retries : ℤ

abbrev pub no_best : Best
no_best = record { subscription = none; max_retries = negsuc 0 }

-- The subscription's own limit, or the configured one.
unfoldable pub effective_max_retries : ℤ → Subscription → ℤ
effective_max_retries configured sub = on_option sub.max_retries configured (λ n. n)

module _ {Value : Type 0} (ext : External Value) where
  -- One round of the loop over a subscriber's subscriptions.
  unfoldable pub improve : ℤ → Bytes → Subscription → Best → Best
  improve configured content sub best =
      if matches_filter ext sub.filter content
      then (if ltb_ℤ best.max_retries (effective_max_retries configured sub)
          then record {
            subscription = some sub;
            max_retries = effective_max_retries configured sub;
          }
          else best)
      else best

  unfoldable pub best_from : ℤ → Bytes → Best → List Subscription → Best
  unfolding improve
  best_from configured content best [] = best
  best_from configured content best (sub ∷ rest) =
      best_from configured content (improve configured content sub best) rest

  unfoldable pub choose_best : ℤ → Bytes → List Subscription → Best
  unfolding best_from
  choose_best configured content subs = best_from configured content no_best subs
