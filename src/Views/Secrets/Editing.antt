-- ===== src/Views/Secrets/Editing.antt =====
-- views/secrets.go: the page that edits an API secret and its associations with subscribers.
-- `order` is the order in which Go iterates a set.
use slurpee.Prelude.{
  Bool, ◌||◌, Option, List, [], ◌∷◌, is_empty, map, keep_if, contains_if, if◌then◌else◌,
}
use slurpee.Prelude.Action.{Action, pure, ◌>>=◌, ◌>>◌, on_option, on_result}
use slurpee.Prelude.Keys.{Bytes, codes, ◌==◌, bytes_eq}
use slurpee.Model.{PgUuid, pg_uuid, Subscriber, ApiSecret}
use slurpee.Db.Subscribers.{list_subscribers}
use slurpee.Db.Secrets.{get_api_secret_by_id}
use slurpee.Db.Pages.{
  update_api_secret, add_api_secret_subscriber, remove_api_secret_subscriber,
  list_subscribers_for_api_secret,
}
use slurpee.External.{External}
use slurpee.App.{Application, in_db}
use slurpee.Secrets.{zero_secret}
use slurpee.Views.{
  Platform, redirected, View, show, http_error, or_internal_error, Form, form_value, form_values,
  uuid_to_string,
}
use slurpee.Views.Secrets.{flush_secrets, if_hosts_shared}

pub record SubscriberCheckbox : Type 0 where
  pub id : Bytes
  pub name : Bytes
  pub endpoint_url : Bytes
  pub checked : Bool

pub record SecretEditPage : Type 0 where
  pub id : Bytes
  pub name : Bytes
  pub subject_pattern : Bytes
  pub checkboxes : List SubscriberCheckbox
  pub success : Bytes
  pub error : Bytes

abbrev pub is_in : List Bytes → Bytes → Bool
is_in set x = contains_if (λ y. y == x) set

-- A `map[string]struct{}` made from a list.
unfoldable pub set_of : List Bytes → List Bytes
set_of [] = []
set_of (x ∷ xs) = let rest = set_of xs in if is_in rest x then rest else x ∷ rest

module _ {Value : Type 0} (ext : External Value) (platform : Platform) where
  unfoldable pub checkboxes_of : List Subscriber → List Subscriber → List SubscriberCheckbox
  unfolding uuid_to_string
  checkboxes_of all associated =
      map
        (λ s. record {
          id = uuid_to_string ext s.id;
          name = s.name;
          endpoint_url = s.endpoint_url;
          checked =
              is_in (map (λ (t : Subscriber). uuid_to_string ext t.id) associated)
                (uuid_to_string ext s.id);
        })
        all

  -- `renderSecretEditPage`
  unfoldable pub render_secret_edit_page : ApiSecret → Bytes → Bytes → View SecretEditPage
  unfolding checkboxes_of or_internal_error uuid_to_string
  render_secret_edit_page secret success error = or_internal_error (in_db list_subscribers) λ all.
      or_internal_error (in_db (list_subscribers_for_api_secret platform.engine secret.id))
        λ associated. show 200 (record {
          id = uuid_to_string ext secret.id;
          name = secret.name;
          subject_pattern = secret.subject_pattern;
          checkboxes = checkboxes_of all associated;
          success = success;
          error = error;
        })

  -- `secretEditHandler`, with the `id` of the path.
  unfoldable pub secret_edit_handler : Bytes → View SecretEditPage
  unfolding render_secret_edit_page
  secret_edit_handler id =
      on_option (ext.uuid_parse id) (http_error 400 (codes "Invalid secret ID")) λ parsed. do
        found ← in_db (get_api_secret_by_id (pg_uuid parsed))
        on_result found (λ e. http_error 404 (codes "Secret not found"))
            λ secret. render_secret_edit_page secret [] []

  -- The failures of `secretUpdateHandler`: the page of the secret as it is stored, with a message.
  unfoldable pub fail_update : PgUuid → Bytes → View SecretEditPage
  unfolding render_secret_edit_page
  fail_update id msg = do
    found ← in_db (get_api_secret_by_id id)
    render_secret_edit_page (on_result found (λ e. zero_secret) (λ s. s)) [] msg

  -- `desiredSet`
  unfoldable pub desired_set : List Bytes → List Bytes
  unfolding set_of
  desired_set ids =
      set_of (keep_if (λ id. on_option (ext.uuid_parse id) Bool.false (λ _. Bool.true)) ids)

  abbrev parsed_or_nil : Bytes → PgUuid
  parsed_or_nil id = pg_uuid (on_option (ext.uuid_parse id) 0 (λ n. n))

  unfoldable pub add_missing : PgUuid → List Bytes → List Bytes → Action Application (Unit {0})
  add_missing secret_id current [] = pure tt
  add_missing secret_id current (id ∷ ids) =
      if is_in current id then add_missing secret_id current ids else do
        _ ← in_db (add_api_secret_subscriber secret_id (parsed_or_nil id))
        add_missing secret_id current ids

  unfoldable pub remove_extra : PgUuid → List Bytes → List Bytes → Action Application (Unit {0})
  remove_extra secret_id desired [] = pure tt
  remove_extra secret_id desired (id ∷ ids) =
      if is_in desired id then remove_extra secret_id desired ids else do
        _ ← in_db (remove_api_secret_subscriber secret_id (parsed_or_nil id))
        remove_extra secret_id desired ids

  module _ (order : List Bytes → List Bytes) where
    -- The synchronisation of the associations.
    unfoldable pub sync_subscribers : PgUuid → List Bytes → Action Application (Unit {0})
    unfolding desired_set add_missing remove_extra set_of uuid_to_string
    sync_subscribers id ids = do
      listed ← in_db (list_subscribers_for_api_secret platform.engine id)
      let current =
          set_of (on_result listed (λ e. []) (map λ (s : Subscriber). uuid_to_string ext s.id))
      let desired = desired_set ids
      add_missing id current (order desired)
      remove_extra id desired (order current)

    -- `secretUpdateHandler` behind its checks.
    unfoldable pub update_secret : PgUuid → Bytes → Bytes → List Bytes → View SecretEditPage
    unfolding sync_subscribers fail_update
    update_secret id name subject_pattern ids = do
      updated ← in_db (update_api_secret id name subject_pattern)
      on_result updated (λ e. fail_update id (codes "Failed to update secret"))
          λ row. do sync_subscribers id ids; flush_secrets; pure (redirected (codes "/secrets"))

    -- `secretUpdateHandler`, with the `id` of the path.
    unfoldable pub secret_update_handler : Bytes → Option Form → View SecretEditPage
    unfolding update_secret fail_update if_hosts_shared
    secret_update_handler id request =
        on_option (ext.uuid_parse id) (http_error 400 (codes "Invalid secret ID")) λ parsed.
          let secret_id = pg_uuid parsed in
          on_option request (fail_update secret_id (codes "Invalid form data")) λ form.
            let name = form_value (codes "name") form in
            let subject_pattern = form_value (codes "subject_pattern") form in
            let ids = form_values (codes "subscriber_ids") form in
            if is_empty name || is_empty subject_pattern
            then fail_update secret_id (codes "Name and subject pattern are required")
            else if_hosts_shared ext platform ids (fail_update secret_id)
                (update_secret secret_id name subject_pattern ids)
