-- ===== src/Views/Logging.antt =====
-- views/logging.go: the pages that configure which properties of an event are logged.
pub mod RoundTrip
pub mod Effects
use slurpee.Prelude.{ℕ, Bool, ◌||◌, Option, none, some, List, [], ◌∷◌, is_empty, map, if◌then◌else◌}
use slurpee.Prelude.Action.{Action, pure, ◌>>=◌, ◌>>◌, modify, on_option, on_result}
use slurpee.Prelude.Keys.{Bytes, codes}
use slurpee.Prelude.Text.{trim_space, split, join}
use slurpee.Model.{LogConfig}
use slurpee.Db.Listings.{Engine}
use slurpee.Db.Pages.{upsert_log_config, delete_log_config_for_subject, list_log_configs}
use slurpee.External.{External}
use slurpee.Cache
use slurpee.App.{Application, in_db, draw_id}
use slurpee.Views.{Page, View, show, http_error, or_internal_error, Form, form_value}

pub record LogConfigRow : Type 0 where
  pub subject : Bytes
  pub log_properties : Bytes

pub record LoggingPage : Type 0 where
  pub rows : List LogConfigRow
  pub success : Bytes
  pub error : Bytes

abbrev pub comma_space : Bytes
comma_space = b',' ∷ b' ' ∷ []

-- `buildLogConfigRows`
unfoldable pub build_log_config_rows : List LogConfig → List LogConfigRow
build_log_config_rows =
    map (λ c. record { subject = c.subject; log_properties = join comma_space c.log_properties })

-- The loop of `parseProperties`.
unfoldable pub clean : List Bytes → List Bytes
clean [] = []
clean (part ∷ parts) =
    let trimmed = trim_space part in
    let rest = clean parts in if is_empty trimmed then rest else trimmed ∷ rest

-- `parseProperties`: nil, here `none`, if there is no property.
unfoldable pub parse_properties : Bytes → Option (List Bytes)
unfolding clean
parse_properties input =
    let found = clean (split b',' input) in if is_empty found then none else some found

abbrev pub flush_log_configs : Action Application (Unit {0})
flush_log_configs = modify (λ a. record a { log_config_cache = Cache.flush a.log_config_cache })

module _ {Value : Type 0} (ext : External Value) (engine : Engine) where
  -- The three functions that render the list: a status, and the message in one of two places.
  unfoldable pub render_logging : ℕ → Bytes → Bytes → View LoggingPage
  unfolding build_log_config_rows or_internal_error
  render_logging code success error = or_internal_error (in_db (list_log_configs engine)) λ configs.
      show code (record { rows = build_log_config_rows configs; success = success; error = error })

  -- `renderLoggingWithError`
  unfoldable pub render_logging_with_error : Bytes → View LoggingPage
  unfolding render_logging
  render_logging_with_error msg = render_logging 400 [] msg

  -- `renderLoggingWithSuccess`
  unfoldable pub render_logging_with_success : Bytes → View LoggingPage
  unfolding render_logging
  render_logging_with_success msg = render_logging 200 msg []

  -- `loggingListHandler`
  unfoldable pub logging_list_handler : View LoggingPage
  unfolding render_logging
  logging_list_handler = render_logging 200 [] []

  -- `loggingCreateHandler` and `loggingUpdateHandler` behind their checks.
  unfoldable pub store_config : Bytes → Bytes → Bytes → Option (List Bytes) → View LoggingPage
  unfolding render_logging_with_error render_logging_with_success
  store_config failed done subject properties = do
    id ← draw_id ext
    stored ←
        in_db
          (upsert_log_config (record { id = id; subject = subject; log_properties = properties }))
    on_result stored (λ e. render_logging_with_error failed)
        λ row. do flush_log_configs; render_logging_with_success done

  -- The two handlers, which differ in their messages.
  unfoldable pub save_config : Bytes → Bytes → Option Form → View LoggingPage
  unfolding store_config parse_properties render_logging_with_error
  save_config failed done request =
      on_option request (http_error 400 (codes "Invalid form data")) λ form.
        let subject = trim_space (form_value (codes "subject") form) in
        let properties = trim_space (form_value (codes "properties") form) in
        if is_empty subject || is_empty properties
        then render_logging_with_error (codes "Subject and properties are required")
        else store_config failed done subject (parse_properties properties)

  -- `loggingCreateHandler`
  unfoldable pub logging_create_handler : Option Form → View LoggingPage
  unfolding save_config
  logging_create_handler =
      save_config (codes "Failed to create logging configuration")
        (codes "Logging configuration added")

  -- `loggingUpdateHandler`
  unfoldable pub logging_update_handler : Option Form → View LoggingPage
  unfolding save_config
  logging_update_handler =
      save_config (codes "Failed to update logging configuration")
        (codes "Logging configuration updated")

  -- `loggingDeleteHandler`, with the `subject` of the path.
  unfoldable pub logging_delete_handler : Bytes → View LoggingPage
  unfolding render_logging_with_error render_logging_with_success
  logging_delete_handler subject =
      if is_empty subject then render_logging_with_error (codes "Subject is required") else do
        deleted ← in_db (delete_log_config_for_subject subject)
        on_result deleted
            (λ e. render_logging_with_error (codes "Failed to delete logging configuration"))
            λ _. do
              flush_log_configs
              render_logging_with_success (codes "Logging configuration deleted")
