-- ===== src/Views/Secrets.antt =====
-- views/secrets.go: the pages that list, create and edit API secrets.
-- `random` is what `rand.Read` fills a new secret with, and `salt` which hash bcrypt makes of it.
pub mod Editing
pub mod Effects
pub mod Validity
use slurpee.Prelude.{
  ℕ, Bool, true, false, not, ◌||◌, Option, none, some, List, [], ◌∷◌, ltb, length, is_empty, map,
  contains_if, if◌then◌else◌,
}
use slurpee.Prelude.Action.{
  Action, pure, ◌>>=◌, ◌>>◌, modify, on_option, on_result, DbError, Result, ok, err,
}
use slurpee.Prelude.Keys.{Bytes, codes, ◌==◌, bytes_eq, lookup, insert}
use slurpee.Model.{PgUuid, pg_uuid, Subscriber, ApiSecret}
use slurpee.Db.Subscribers.{list_subscribers}
use slurpee.Db.Secrets.{get_api_secret_by_id}
use slurpee.Db.Pages.{
  insert_api_secret, update_api_secret, add_api_secret_subscriber, list_api_secrets,
}
use slurpee.External.{External}
use slurpee.Cache
use slurpee.App.{Application, in_db, draw_id}
use slurpee.Secrets.{delete_secret}
use slurpee.Secrets.Generation.{generate_secret}
use slurpee.Views.{
  Platform, Page, redirected, View, show, http_error, or_internal_error, Form, form_value,
  form_values, uuid_to_string,
}

pub record SubscriberOption : Type 0 where
  pub id : Bytes
  pub name : Bytes
  pub endpoint_url : Bytes

pub record SecretRow : Type 0 where
  pub id : Bytes
  pub name : Bytes
  pub subject_pattern : Bytes
  pub subscriber_names : Bytes
  pub created_at : ℕ

pub record SecretsPage : Type 0 where
  pub rows : List SecretRow
  pub options : List SubscriberOption
  pub success : Bytes
  pub error : Bytes
  pub created_id : Bytes
  pub plaintext : Bytes

abbrev pub flush_secrets : Action Application (Unit {0})
flush_secrets = modify (λ a. record a { secret_cache = Cache.flush a.secret_cache })

module _ {Value : Type 0} (ext : External Value) (platform : Platform) where
  -- `loadSubscriberOptions`, with the subscribers at hand.
  unfoldable pub subscriber_options : List Subscriber → List SubscriberOption
  unfolding uuid_to_string
  subscriber_options =
      map λ s. record { id = uuid_to_string ext s.id; name = s.name; endpoint_url = s.endpoint_url }

  unfoldable pub secret_rows : List (ApiSecret × Bytes) → List SecretRow
  unfolding uuid_to_string
  secret_rows = map λ (s, names). record {
    id = uuid_to_string ext s.id;
    name = s.name;
    subject_pattern = s.subject_pattern;
    subscriber_names = names;
    created_at = s.created_at;
  }

  -- `renderSecretsPage`
  unfoldable pub render_secrets_page : Bytes → Bytes → Bytes → Bytes → View SecretsPage
  unfolding subscriber_options secret_rows or_internal_error
  render_secrets_page success error created_id plaintext =
      or_internal_error (in_db (list_api_secrets platform.engine)) λ secrets.
        or_internal_error (in_db list_subscribers) λ subscribers. show 200 (record {
          rows = secret_rows secrets;
          options = subscriber_options subscribers;
          success = success;
          error = error;
          created_id = created_id;
          plaintext = plaintext;
        })

  -- `secretsListHandler`
  unfoldable pub secrets_list_handler : View SecretsPage
  unfolding render_secrets_page
  secrets_list_handler = render_secrets_page [] [] [] []

  -- `extractHostPort`
  unfoldable pub extract_host_port : Bytes → Bytes
  extract_host_port url = on_option (platform.url_host url) url (λ host. host)

  -- `subMap`
  unfoldable pub endpoints_from : List (Bytes × Bytes) → List Subscriber → List (Bytes × Bytes)
  unfolding uuid_to_string
  endpoints_from m [] = m
  endpoints_from m (s ∷ rest) =
      endpoints_from (insert (uuid_to_string ext s.id) s.endpoint_url m) rest

  -- The loop of the host:port check, with the host of the selected subscribers so far.
  unfoldable pub share_host : List (Bytes × Bytes) → Bytes → List Bytes → Bool
  unfolding extract_host_port
  share_host endpoints host [] = true
  share_host endpoints host (id ∷ ids) =
      on_option (lookup id endpoints) (share_host endpoints host ids) λ url.
        let found = extract_host_port url in
        let rest = share_host endpoints (if is_empty host then found else host) ids in
        if is_empty host || found == host then rest else false

  -- The host:port check of both handlers: it goes on, or fails with a message.
  unfoldable pub if_hosts_shared : {V : Type 0} → List Bytes → (Bytes → View V) → View V → View V
  unfolding endpoints_from share_host
  if_hosts_shared ids fail go =
      if ltb 1 (length ids)
      then (do
        listed ← in_db list_subscribers
        on_result listed (λ e. fail (codes "Internal error"))
            λ subscribers.
              if share_host (endpoints_from [] subscribers) [] ids
              then go
              else fail (codes "All selected subscribers must share the same host:port"))
      else go

  -- The loop that associates the selected subscribers, without regard to errors.
  unfoldable pub associate_all : PgUuid → List Bytes → Action Application (Unit {0})
  associate_all secret_id [] = pure tt
  associate_all secret_id (id ∷ ids) =
      on_option (ext.uuid_parse id) (associate_all secret_id ids) λ parsed. do
        _ ← in_db (add_api_secret_subscriber secret_id (pg_uuid parsed))
        associate_all secret_id ids

  unfoldable pub fail_create : Bytes → View SecretsPage
  unfolding render_secrets_page
  fail_create msg = render_secrets_page [] msg [] []

  -- `secretCreateHandler`, once the secret is hashed.
  unfoldable pub insert_secret : Bytes → Bytes → List Bytes → Bytes → Bytes → View SecretsPage
  unfolding fail_create associate_all render_secrets_page uuid_to_string
  insert_secret name subject_pattern ids plaintext hash = do
    id ← draw_id ext
    inserted ← in_db (
        insert_api_secret
          (record { id = id; name = name; secret_hash = hash; subject_pattern = subject_pattern }))
    on_result inserted (λ e. fail_create (codes "Failed to create secret"))
        λ row. do
          associate_all id ids
          flush_secrets
          render_secrets_page [] [] (uuid_to_string ext id) plaintext

  unfoldable pub make_secret : Option Bytes → ℕ → Bytes → Bytes → List Bytes → View SecretsPage
  unfolding insert_secret generate_secret fail_create
  make_secret random salt name subject_pattern ids =
      on_option (generate_secret random) (fail_create (codes "Failed to generate secret"))
        λ plaintext.
          on_option (platform.generate_hash salt plaintext)
            (fail_create (codes "Failed to create secret"))
            λ hash. insert_secret name subject_pattern ids plaintext hash

  -- `secretCreateHandler`
  unfoldable pub secret_create_handler : Option Bytes → ℕ → Option Form → View SecretsPage
  unfolding make_secret if_hosts_shared fail_create
  secret_create_handler random salt request =
      on_option request (fail_create (codes "Invalid form data")) λ form.
        let name = form_value (codes "name") form in
        let subject_pattern = form_value (codes "subject_pattern") form in
        let ids = form_values (codes "subscriber_ids") form in
        if is_empty name || is_empty subject_pattern
        then fail_create (codes "Name and subject pattern are required")
        else if_hosts_shared ids fail_create (make_secret random salt name subject_pattern ids)

  -- `secretDeleteHandler`, with the `id` of the path.
  unfoldable pub secret_delete_handler : Bytes → View (Unit {0})
  secret_delete_handler id =
      on_option (ext.uuid_parse id) (http_error 400 (codes "Invalid secret ID")) λ parsed. do
        deleted ← delete_secret (pg_uuid parsed)
        on_result deleted (λ e. http_error 500 (codes "Failed to delete secret"))
            λ _. pure (redirected (codes "/secrets"))
