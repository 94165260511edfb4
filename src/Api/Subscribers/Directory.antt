-- ===== src/Api/Subscribers/Directory.antt =====
-- api/subscribers.go: the handlers that list the subscribers and delete one.
use slurpee.Prelude.{List, [], ◌∷◌, map}
use slurpee.Prelude.Action.{◌>>=◌, ◌>>◌, modify, on_option, on_result, DbError, no_rows, other}
use slurpee.Prelude.Keys.{Bytes, codes, bytes_eq}
use slurpee.Model.{PgUuid, pg_uuid, Subscriber}
use slurpee.Db.Subscribers
use slurpee.Db.Subscribers.{
  list_subscribers, list_subscriptions_for_subscriber, delete_subscriptions_for_subscriber,
  delete_subscriber,
}
use slurpee.External.{External}
use slurpee.SubscriptionCache
use slurpee.App.{in_db}
use slurpee.Api.{Handler, refuse, reply}
use slurpee.Api.Subscribers.{
  SubscriberResponse, admin_only, and_then, or_500, subscriber_to_response,
  subscription_to_response,
}

module _ {Value : Type 0} (ext : External Value) where
  -- The loop of `listSubscribersHandler`.
  unfoldable pub list_each : List Subscriber → Handler (List SubscriberResponse)
  unfolding subscriber_to_response subscription_to_response and_then or_500
  list_each [] = reply 200 []
  list_each (s ∷ rest) =
      and_then
        (or_500 (codes "Failed to list subscriptions")
          (in_db (list_subscriptions_for_subscriber s.id)))
        λ subs. and_then (list_each rest) λ others.
          reply 200
            (subscriber_to_response ext s (map (subscription_to_response ext) subs) ∷ others)

  -- `listSubscribersHandler`
  unfoldable pub list_subscribers_handler : Bytes → Handler (List SubscriberResponse)
  unfolding admin_only list_each
  list_subscribers_handler admin_secret =
      admin_only admin_secret
        (and_then (or_500 (codes "Failed to list subscribers") (in_db list_subscribers)) list_each)

  abbrev refuse_lookup : DbError → Handler (Unit {0})
  refuse_lookup no_rows = refuse 404 (codes "subscriber not found")
  refuse_lookup other = refuse 500 (codes "Failed to delete subscriber")

  -- `deleteSubscriberHandler`, with the subscriber's id at hand.
  unfoldable pub delete_by_id : PgUuid → Handler (Unit {0})
  delete_by_id id = do
    found ← in_db (Subscribers.get_subscriber_by_id id)
    on_result found refuse_lookup λ _. do
      cleared ← in_db (delete_subscriptions_for_subscriber id)
      on_result cleared (λ e. refuse 500 (codes "Failed to delete subscriber"))
          λ _. do
            deleted ← in_db (delete_subscriber id)
            on_result deleted (λ e. refuse 500 (codes "Failed to delete subscriber"))
                λ _. do
                  modify (λ a. record a {
                    subscription_cache = SubscriptionCache.flush a.subscription_cache;
                  })
                  reply 204 tt

  -- `deleteSubscriberHandler`, with the `id` of the path.
  unfoldable pub delete_subscriber_handler : Bytes → Bytes → Handler (Unit {0})
  unfolding admin_only delete_by_id
  delete_subscriber_handler admin_secret id = admin_only admin_secret (
      on_option (ext.uuid_parse id) (refuse 400 (codes "id must be a valid UUID"))
        λ parsed. delete_by_id (pg_uuid parsed))
