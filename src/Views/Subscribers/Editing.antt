-- ===== src/Views/Subscribers/Editing.antt =====
-- views/subscribers.go: the handlers that change a subscriber and its subscriptions.
use slurpee.Prelude.{◌||◌, Option, is_empty, if◌then◌else◌}
use slurpee.Prelude.Action.{◌>>=◌, on_option, on_result}
use slurpee.Prelude.Int.{ℤ, pos}
use slurpee.Prelude.Keys.{Bytes, codes, bytes_eq}
use slurpee.Model.{PgUuid, pg_uuid}
use slurpee.Db.Subscribers.{create_subscription, delete_subscription}
use slurpee.Db.Pages.{update_subscriber}
use slurpee.External.{External}
use slurpee.App.{in_db, draw_id}
use slurpee.Views.{Platform, View, http_error, Form, form_value}
use slurpee.Views.Subscribers.{
  SubscriberPage, render_detail_with_error, finish_change, parse_filter, parse_at_least,
  parse_max_retries,
}

module _ {Value : Type 0} (ext : External Value) (platform : Platform) where
  -- The path's subscriber and the form, as three handlers begin.
  unfoldable pub with_form :
      Bytes → Option Form → (PgUuid → Form → View SubscriberPage) → View SubscriberPage
  with_form id request go =
      on_option (ext.uuid_parse id) (http_error 400 (codes "Invalid subscriber ID")) λ parsed.
        on_option request (http_error 400 (codes "Invalid form data")) (go (pg_uuid parsed))

  -- `subscriberUpdateHandler` behind its checks.
  unfoldable pub change_subscriber : PgUuid → Bytes → Bytes → ℤ → View SubscriberPage
  unfolding render_detail_with_error finish_change
  change_subscriber id name auth_secret max_parallel = do
    updated ← in_db (update_subscriber id name auth_secret max_parallel)
    on_result updated
        (λ e. render_detail_with_error ext platform id (codes "Failed to update subscriber"))
        λ row. finish_change ext platform id (codes "Subscriber updated successfully")

  -- `subscriberUpdateHandler`
  unfoldable pub subscriber_update_handler : Bytes → Option Form → View SubscriberPage
  unfolding with_form change_subscriber render_detail_with_error parse_at_least
  subscriber_update_handler path request = with_form path request λ id form.
      let name = form_value (codes "name") form in
      let auth_secret = form_value (codes "auth_secret") form in
      if is_empty name || is_empty auth_secret
      then render_detail_with_error ext platform id (codes "Name and auth secret are required")
      else on_option (parse_at_least (pos 1) (form_value (codes "max_parallel") form))
          (render_detail_with_error ext platform id
            (codes "Max parallel must be a positive integer"))
          (change_subscriber id name auth_secret)

  -- `subscriptionCreateHandler` behind its checks.
  unfoldable pub add_subscription : PgUuid → Bytes → Bytes → Option ℤ → View SubscriberPage
  unfolding render_detail_with_error finish_change
  add_subscription id subject_pattern filter max_retries = do
    subscription_id ← draw_id ext
    created ← in_db (
        create_subscription (record {
          id = subscription_id;
          subscriber_id = id;
          subject_pattern = subject_pattern;
          filter = filter;
          max_retries = max_retries;
        }))
    on_result created
        (λ e. render_detail_with_error ext platform id (codes "Failed to create subscription"))
        λ row. finish_change ext platform id (codes "Subscription added successfully")

  -- `subscriptionCreateHandler`
  unfoldable pub subscription_create_handler : Bytes → Option Form → View SubscriberPage
  unfolding with_form add_subscription render_detail_with_error parse_filter parse_max_retries
  subscription_create_handler path request = with_form path request λ id form.
      let subject_pattern = form_value (codes "subject_pattern") form in
      if is_empty subject_pattern
      then render_detail_with_error ext platform id (codes "Subject pattern is required")
      else on_option (parse_filter ext platform (form_value (codes "filter") form))
          (render_detail_with_error ext platform id (codes "Filter must be valid JSON"))
          λ filter.
            on_option (parse_max_retries (form_value (codes "max_retries") form))
              (render_detail_with_error ext platform id
                (codes "Max retries must be a non-negative integer"))
              (add_subscription id subject_pattern filter)

  -- `subscriptionDeleteHandler`, with the `id` and the `subId` of the path.
  unfoldable pub subscription_delete_handler : Bytes → Bytes → View SubscriberPage
  unfolding render_detail_with_error finish_change
  subscription_delete_handler path sub_path =
      on_option (ext.uuid_parse path) (http_error 400 (codes "Invalid subscriber ID")) λ parsed.
        on_option (ext.uuid_parse sub_path) (http_error 400 (codes "Invalid subscription ID"))
          λ sub_parsed. do
            deleted ← in_db (delete_subscription (pg_uuid sub_parsed))
            on_result deleted
                (λ e.
                  render_detail_with_error ext platform (pg_uuid parsed)
                    (codes "Failed to delete subscription"))
                λ _. finish_change ext platform (pg_uuid parsed) (codes "Subscription deleted")
