-- ===== src/Views/Logging/Effects.antt =====
-- What the forms of the logging page change for the extraction of properties.
use slurpee.Prelude.{
  suc, ◌≡◌, refl, ap, ◌∙◌, arith, true, false, not, inl, inr, Bool-cases, Option, none, some, List,
  [], ◌∷◌, ◌++◌, is_empty, find, keep_if, contains_if, update_if, find-keep_if-not, find-append,
  if◌then◌else◌,
}
use slurpee.Prelude.Action.{Result, ok, on_option}
use slurpee.Prelude.Keys.{Bytes, codes, ◌==◌, ==_refl, bytes_eq, lookup}
use slurpee.Prelude.Sort.{sort_by}
use slurpee.Prelude.Text.{trim_space}
use slurpee.Model.{pg_uuid, uuid_eq, LogConfig}
use slurpee.Db.{Db, query_idle, one_row}
use slurpee.Db.Secrets.{get_log_config_by_subject}
use slurpee.Db.Listings.{Engine}
use slurpee.Db.Pages.{
  UpsertLogConfigParams, upsert_log_config, delete_log_config_for_subject, list_log_configs,
}
use slurpee.External.{External}
use slurpee.Cache
use slurpee.Cache.{new_cache}
use slurpee.App.{Application, in_db, draw_id}
use slurpee.LogProperties.{
  Properties, extract_log_properties, extract_configured, get_log_config, log_config_cached,
  store_log_config, collect, nil_if_empty,
}
use slurpee.Views.{Form, form_value, or_internal_error}
use slurpee.Views.Logging.{
  render_logging, render_logging_with_success, store_config, save_config, parse_properties,
  logging_create_handler, logging_delete_handler,
}

-- The configuration of a subject in the table has these properties.
abbrev Configures : List LogConfig → Bytes → List Bytes → Type 0
Configures rows subject props =
    (c : LogConfig) × (find (λ c. c.subject == subject) rows ≡ some c) × (c.log_properties ≡ props)

abbrev with_properties : List Bytes → LogConfig → LogConfig
with_properties props c = record c { log_properties = props }

update_if-Configures :
    (subject : Bytes) (props : List Bytes) (rows : List LogConfig)
    → contains_if (λ c. c.subject == subject) rows ≡ true
    → Configures (update_if (λ c. c.subject == subject) (with_properties props) rows) subject props
unfolding find contains_if update_if
update_if-Configures subject props [] h = absurd (ground arith)
update_if-Configures subject props (c ∷ rows) h = elim (Bool-cases (c.subject == subject)) [
  | inl same ↦ (with_properties props c, rw (same, same) refl, refl)
  | inr differs ↦
      let (d, found, e) = update_if-Configures subject props rows (ground arith) in
      (d, rw (differs, differs) found, e)
]

abbrev params : LogConfig → UpsertLogConfigParams
params row = record { id = row.id; subject = row.subject; log_properties = some row.log_properties }

-- The table after an upsert, while the database answers and the id is new.
upsert_idle :
    (row : LogConfig) (db : Db)
    → db.outages ≡ []
    → contains_if (λ c. c.id == row.id) db.log_configs ≡ false
    → (stored : LogConfig) × (after : Db) × (upsert_log_config (params row) db ≡ (ok stored, after))
      × (after.outages ≡ [])
      × Configures after.log_configs row.subject row.log_properties
unfolding upsert_log_config
upsert_idle row db up new =
    elim (Bool-cases (contains_if (λ c. c.subject == row.subject) db.log_configs)) [
      | inl known ↦
          let rows =
            update_if (λ (c : LogConfig). c.subject == row.subject)
              (with_properties row.log_properties) db.log_configs in
          let (c, found, e) =
            update_if-Configures row.subject row.log_properties db.log_configs known in
          (
            c,
            record db { log_configs = rows },
            query_idle _ db up ∙ rw (known, found) refl,
            up,
            (c, found, e),
          )
      | inr unknown ↦ (
        row,
        record db { log_configs = db.log_configs ++ row ∷ [] },
        query_idle _ db up ∙ rw (unknown, new) refl,
        up,
        (
          row,
          find-append (λ c. c.subject == row.subject) row db.log_configs unknown
              (==_refl row.subject),
          refl,
        ),
      )
    ]

query_row :
    (a : Application) (subject : Bytes)
    → a.db.outages ≡ []
    → in_db (get_log_config_by_subject subject) a
      ≡ (one_row (find (λ c. c.subject == subject) a.db.log_configs), a)
unfolding get_log_config_by_subject in_db
query_row a subject up =
    ap (λ (p : Result LogConfig × Db). (p.0, record a { db = p.1 })) (query_idle _ a.db up)

-- What a subject's configuration is when it is not in the cache.
get_log_config_fresh :
    (a : Application) (subject : Bytes)
    → a.db.outages ≡ []
    → lookup subject a.log_config_cache.items ≡ none
    → (get_log_config subject a).0 ≡ find (λ c. c.subject == subject) a.db.log_configs
unfolding get_log_config Cache.get log_config_cached store_log_config
get_log_config_fresh a subject up fresh =
    ap (λ cached. (log_config_cached subject cached a).0) fresh
    ∙ rw (query_row a subject up) (stored (find (λ c. c.subject == subject) a.db.log_configs))
  where
    stored : (row : Option LogConfig) → (store_log_config subject (one_row row) a).0 ≡ row
    stored none = refl
    stored (some c) = refl

-- The properties of a text that a configuration of these names extracts.
abbrev pub extract_these : {Value : Type 0} → External Value → List Bytes → Bytes → Properties
extract_these ext props content =
    on_option (ext.unmarshal_object content) none
      λ obj. if is_empty props then none else nil_if_empty (collect ext obj [] props)

module _ {Value : Type 0} (ext : External Value) where
  extract-Configures :
      (a : Application) (subject content : Bytes) (props : List Bytes)
      → a.db.outages ≡ []
      → lookup subject a.log_config_cache.items ≡ none
      → Configures a.db.log_configs subject props
      → (extract_log_properties ext subject content a).0 ≡ extract_these ext props content
  unfolding extract_log_properties extract_configured
  extract-Configures a subject content props up fresh (c, found, e) =
      rw (get_log_config_fresh a subject up fresh, found, e) refl

  -- The list of configurations, which a successful form shows, changes nothing.
  list_row :
      (engine : Engine) (a : Application)
      → a.db.outages ≡ []
      → in_db (list_log_configs engine) a
        ≡ (ok (sort_by (λ c d. engine.text_leb c.subject d.subject) a.db.log_configs), a)
  unfolding list_log_configs in_db
  list_row engine a up =
      ap (λ (p : Result (List LogConfig) × Db). (p.0, record a { db = p.1 })) (query_idle _ a.db up)

  render_idle :
      (engine : Engine) (a : Application) (msg : Bytes)
      → a.db.outages ≡ []
      → (render_logging_with_success ext engine msg a).1 ≡ a
  unfolding render_logging_with_success render_logging or_internal_error
  render_idle engine a msg up = rw (list_row engine a up) refl

  -- The state after the configuration of a subject is stored: extraction uses it.
  store_config-extract :
      (engine : Engine) (a : Application) (failed done subject content : Bytes) (props : List Bytes)
      → a.db.outages ≡ []
      → contains_if (λ c. c.id == pg_uuid (ext.new_v7 a.drawn)) a.db.log_configs ≡ false
      → let b = (store_config ext engine failed done subject (some props) a).1 in
        (extract_log_properties ext subject content b).0 ≡ extract_these ext props content
  unfolding store_config draw_id in_db Cache.flush new_cache lookup
  store_config-extract engine a failed done subject content props up new =
      let row : LogConfig = record {
        id = pg_uuid (ext.new_v7 a.drawn);
        subject = subject;
        log_properties = props;
      } in
      let (stored, after, e, still_up, known) = upsert_idle row a.db up new in
      let b = record a {
        drawn = suc a.drawn;
        db = after;
        log_config_cache = Cache.flush a.log_config_cache;
      } in
      rw (e, render_idle engine b done still_up)
        (extract-Configures b subject content props still_up refl known)

  abbrev without_config : Bytes → Application → Application
  without_config subject a = record a {
    db = record (a.db) { log_configs = keep_if (λ c. not (c.subject == subject)) a.db.log_configs };
  }

  delete_row :
      (a : Application) (subject : Bytes)
      → a.db.outages ≡ []
      → in_db (delete_log_config_for_subject subject) a ≡ (ok tt, without_config subject a)
  unfolding delete_log_config_for_subject in_db
  delete_row a subject up =
      ap (λ (p : Result (Unit {0}) × Db). (p.0, record a { db = p.1 })) (query_idle _ a.db up)

  -- The state after the configuration of a subject is deleted: nothing is extracted.
  delete-extract :
      (engine : Engine) (a : Application) (subject content : Bytes)
      → a.db.outages ≡ []
      → is_empty subject ≡ false
      → let b = (logging_delete_handler ext engine subject a).1 in
        (extract_log_properties ext subject content b).0 ≡ none
  unfolding logging_delete_handler extract_log_properties extract_configured Cache.flush new_cache
      lookup
  delete-extract engine a subject content up given =
      let b = record (without_config subject a) {
        log_config_cache = Cache.flush a.log_config_cache;
      } in
      rw
        (
          given,
          delete_row a subject up,
          render_idle engine b (codes "Logging configuration deleted") up,
          get_log_config_fresh b subject up refl,
          find-keep_if-not (λ (c : LogConfig). c.subject == subject) a.db.log_configs,
        )
        refl

  -- While the database answers, what the logging page saves is what the next events of the subject
  -- are logged with, whatever the cache held: once the form has stored a subject that is not blank
  -- with the properties that `parseProperties` finds in the form, of which there is at least one,
  -- under an id that no row has, the properties extracted from an event's
  -- data are those named in the form that the data has, and once the subject's configuration is
  -- deleted, none are.
  pub logging_create_handler-extract :
      (engine : Engine) (a : Application) (form : Form) (content : Bytes) (props : List Bytes)
      → a.db.outages ≡ []
      → contains_if (λ c. c.id == pg_uuid (ext.new_v7 a.drawn)) a.db.log_configs ≡ false
      → is_empty (trim_space (form_value (codes "subject") form)) ≡ false
      → is_empty (trim_space (form_value (codes "properties") form)) ≡ false
      → parse_properties (trim_space (form_value (codes "properties") form)) ≡ some props
      → let subject = trim_space (form_value (codes "subject") form) in
        let b = (logging_create_handler ext engine (some form) a).1 in
        let c = (logging_delete_handler ext engine subject a).1 in
        ((extract_log_properties ext subject content b).0 ≡ extract_these ext props content)
        × ((extract_log_properties ext subject content c).0 ≡ none)
  unfolding logging_create_handler save_config
  logging_create_handler-extract engine a form content props up new subject_given given parsed =
      let subject = trim_space (form_value (codes "subject") form) in
      (
        rw (subject_given, given, parsed)
            (store_config-extract engine a (codes "Failed to create logging configuration")
              (codes "Logging configuration added") subject content props up new),
        delete-extract engine a subject content up subject_given,
      )
