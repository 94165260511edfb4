-- ===== src/Views/Subscribers.antt =====
-- views/subscribers.go: the pages of the subscribers and of their subscriptions.
pub mod Editing
use slurpee.Prelude.{ℕ, ◌||◌, Option, none, some, List, [], ◌++◌, is_empty, map, if◌then◌else◌}
use slurpee.Prelude.Action.{
  Action, pure, ◌>>=◌, ◌>>◌, modify, on_option, on_result, DbError, no_rows, other,
}
use slurpee.Prelude.Int.{ℤ, pos, ltb_ℤ}
use slurpee.Prelude.Keys.{Bytes, codes, ◌==◌, bytes_eq}
use slurpee.Prelude.Text.{parse_int}
use slurpee.Model.{PgUuid, pg_uuid, Subscriber, Subscription}
use slurpee.Db.Subscribers
use slurpee.Db.Subscribers.{upsert_subscriber, list_subscriptions_for_subscriber}
use slurpee.Db.Pages.{list_subscribers_with_counts}
use slurpee.External.{External}
use slurpee.SubscriptionCache
use slurpee.App.{Application, in_db, draw_id}
use slurpee.Views.{
  Platform, redirected, blank, View, show, http_error, or_internal_error, Form, form_value,
  uuid_to_string,
}

pub record SubscriberRow : Type 0 where
  pub id : Bytes
  pub name : Bytes
  pub endpoint_url : Bytes
  pub max_parallel : ℤ
  pub subscription_count : ℕ
  pub created_at : ℕ

pub record SubscribersPage : Type 0 where
  pub rows : List SubscriberRow
  pub success : Bytes
  pub error : Bytes

pub record SubscriptionRow : Type 0 where
  pub id : Bytes
  pub subject_pattern : Bytes
  pub filter : Bytes
  pub max_retries : Option ℤ

pub record SubscriberPage : Type 0 where
  pub id : Bytes
  pub name : Bytes
  pub endpoint_url : Bytes
  pub auth_secret : Bytes
  pub max_parallel : ℤ
  pub created_at : ℕ
  pub updated_at : ℕ
  pub subscriptions : List SubscriptionRow
  pub success : Bytes
  pub error : Bytes

abbrev pub flush_subscriptions : Action Application (Unit {0})
flush_subscriptions =
    modify λ a. record a { subscription_cache = SubscriptionCache.flush a.subscription_cache }

-- A 32-bit number that is at least a bound.
unfoldable pub parse_at_least : ℤ → Bytes → Option ℤ
parse_at_least least text =
    on_option (parse_int 32 text) none λ n. if ltb_ℤ n least then none else some n

-- The `max_parallel` of a new subscriber, which may be left out.
unfoldable pub parse_max_parallel : Bytes → Option ℤ
unfolding parse_at_least
parse_max_parallel text = if is_empty text then some (pos 1) else parse_at_least (pos 1) text

-- The `max_retries` of a subscription: absent, a number, or not valid.
unfoldable pub parse_max_retries : Bytes → Option (Option ℤ)
unfolding parse_at_least
parse_max_retries text =
    if is_empty text
    then some none
    else on_option (parse_at_least (pos 0) text) none (λ n. some (some n))

module _ {Value : Type 0} (ext : External Value) (platform : Platform) where
  -- `prettyJSON`
  unfoldable pub pretty_json : Bytes → Bytes
  pretty_json text = on_option (platform.indent_json text) text (λ pretty. pretty)

  -- The filter of a form: none, or JSON, or not valid.
  unfoldable pub parse_filter : Bytes → Option Bytes
  parse_filter text = if is_empty text || platform.json_valid text then some text else none

  -- `renderSubscribersPage`
  unfoldable pub render_subscribers_page : Bytes → Bytes → View SubscribersPage
  unfolding or_internal_error uuid_to_string
  render_subscribers_page success error =
      or_internal_error (in_db list_subscribers_with_counts) λ listed.
        show (if is_empty error then 200 else 400) (record {
          rows =
              map
                (λ (s, count). record {
                  id = uuid_to_string ext s.id;
                  name = s.name;
                  endpoint_url = s.endpoint_url;
                  max_parallel = s.max_parallel;
                  subscription_count = count;
                  created_at = s.created_at;
                })
                listed;
          success = success;
          error = error;
        })

  -- `subscribersListHandler`
  unfoldable pub subscribers_list_handler : View SubscribersPage
  unfolding render_subscribers_page
  subscribers_list_handler = render_subscribers_page [] []

  -- `subscriberCreateHandler` behind its checks.
  unfoldable pub store_subscriber : Bytes → Bytes → Bytes → ℤ → View SubscribersPage
  unfolding render_subscribers_page uuid_to_string
  store_subscriber name endpoint_url auth_secret max_parallel = do
    id ← draw_id ext
    stored ← in_db (
        upsert_subscriber (record {
          id = id;
          name = name;
          endpoint_url = endpoint_url;
          auth_secret = auth_secret;
          max_parallel = max_parallel;
        }))
    on_result stored (λ e. render_subscribers_page [] (codes "Failed to create subscriber"))
        λ row. do
          flush_subscriptions
          pure (redirected (codes "/subscribers/" ++ uuid_to_string ext row.id))

  -- `subscriberCreateHandler`
  unfoldable pub subscriber_create_handler : Option Form → View SubscribersPage
  unfolding store_subscriber parse_max_parallel render_subscribers_page
  subscriber_create_handler request =
      on_option request (http_error 400 (codes "Invalid form data")) λ form.
        let name = form_value (codes "name") form in
        let endpoint_url = form_value (codes "endpoint_url") form in
        let auth_secret = form_value (codes "auth_secret") form in
        if is_empty name || is_empty endpoint_url || is_empty auth_secret
        then render_subscribers_page [] (codes "Name, endpoint URL, and auth secret are required")
        else on_option (parse_max_parallel (form_value (codes "max_parallel") form))
            (render_subscribers_page [] (codes "Max parallel must be a positive integer"))
            (store_subscriber name endpoint_url auth_secret)

  unfoldable pub subscription_row : Subscription → SubscriptionRow
  unfolding pretty_json uuid_to_string
  subscription_row s = record {
    id = uuid_to_string ext s.id;
    subject_pattern = s.subject_pattern;
    filter = if is_empty s.filter || s.filter == codes "null" then [] else pretty_json s.filter;
    max_retries = s.max_retries;
  }

  unfoldable pub subscriber_page : Bytes → Bytes → Subscriber → List Subscription → SubscriberPage
  unfolding subscription_row uuid_to_string
  subscriber_page success error s subscriptions = record {
    id = uuid_to_string ext s.id;
    name = s.name;
    endpoint_url = s.endpoint_url;
    auth_secret = s.auth_secret;
    max_parallel = s.max_parallel;
    created_at = s.created_at;
    updated_at = s.updated_at;
    subscriptions = map subscription_row subscriptions;
    success = success;
    error = error;
  }

  -- `buildSubscriberDetailView`, and the rendering of its result with a message.
  unfoldable pub with_detail :
      PgUuid → Bytes → Bytes → (DbError → View SubscriberPage) → ℕ → View SubscriberPage
  unfolding subscriber_page
  with_detail id success error fail code = do
    found ← in_db (Subscribers.get_subscriber_by_id id)
    on_result found fail λ s. do
      listed ← in_db (list_subscriptions_for_subscriber id)
      on_result listed fail
          λ subscriptions. show code (subscriber_page success error s subscriptions)

  -- `renderSubscriberDetailWithError`
  unfoldable pub render_detail_with_error : PgUuid → Bytes → View SubscriberPage
  unfolding with_detail
  render_detail_with_error id msg =
      with_detail id [] msg (λ e. http_error 500 (codes "Internal Server Error")) 400

  -- The end of the three handlers that change a subscriber: nothing is written on an error.
  unfoldable pub finish_change : PgUuid → Bytes → View SubscriberPage
  unfolding with_detail
  finish_change id msg = do flush_subscriptions; with_detail id msg [] (λ e. pure blank) 200

  abbrev detail_error : DbError → View SubscriberPage
  detail_error no_rows = http_error 404 (codes "Subscriber not found")
  detail_error other = http_error 500 (codes "Internal Server Error")

  -- `subscriberDetailHandler`, with the `id` of the path.
  unfoldable pub subscriber_detail_handler : Bytes → View SubscriberPage
  unfolding with_detail
  subscriber_detail_handler id =
      on_option (ext.uuid_parse id) (http_error 400 (codes "Invalid subscriber ID"))
        λ parsed. with_detail (pg_uuid parsed) [] [] detail_error 200
