-- ===== src/Api/Events/Effects.antt =====
-- What the calls of a handler change of the events and of the channel of the dispatcher.
use slurpee.Prelude.{
  ℕ, ◌≡◌, refl, ap, ◌∙◌, Bool, true, false, Option, none, some, List, [], ◌∷◌, ◌++◌, if◌then◌else◌,
}
use slurpee.Prelude.Action.{Action, Result, ok, err, DbError}
use slurpee.Prelude.Keys.{Bytes, bytes_eq}
use slurpee.Model.{PgUuid, pg_uuid, uuid_eq, Event, ApiSecret, LogConfig}
use slurpee.Db.{Db, query_with}
use slurpee.Db.Events.{insert_event, has_event}
use slurpee.Db.Secrets.{get_api_secret_by_id, get_log_config_by_subject}
use slurpee.External.{External}
use slurpee.Cache
use slurpee.Cache.{CacheEntry}
use slurpee.App.{Application, in_db}
use slurpee.Secrets.{validate_secret_by_id, validate_cached, store_row}
use slurpee.LogProperties.{
  get_log_config, log_config_cached, store_log_config, extract_log_properties,
}

-- Neither the events' table nor the channel of the dispatcher has changed.
pub record IsUntouched (a b : Application) : Type 0 where
  pub same_events : b.db.events ≡ a.db.events
  pub same_chan : b.delivery_chan ≡ a.delivery_chan

pub IsUntouched-trans : (a b c : Application) → IsUntouched a b → IsUntouched b c → IsUntouched a c
IsUntouched-trans a b c h k = record {
  same_events = k.same_events ∙ h.same_events;
  same_chan = k.same_chan ∙ h.same_chan;
}

query-events :
    {A : Type 0} (op : Action Db (Result A)) (outages : List Bool) (db : Db)
    → ((d : Db) → (op d).1.events ≡ d.events)
    → (query_with outages op db).1.events ≡ db.events
query-events op [] db h = h db
query-events op (true ∷ rest) db h = refl
query-events op (false ∷ rest) db h = h (record db { outages = rest })

-- An insertion has its effect on the table or none.
abbrev pub Inserted : Event → Db → Result Event × Db → Type 0
Inserted event db (ok e, after) = (e ≡ event) × (after.events ≡ db.events ++ event ∷ [])
Inserted event db (err e, after) = after.events ≡ db.events

pub insert_event-Inserted : (event : Event) (db : Db) → Inserted event db (insert_event event db)
unfolding insert_event
insert_event-Inserted event db = by_outages db.outages
  where
    by_key :
        (d : Db) (known : Bool)
        → d.events ≡ db.events
        → Inserted event db (
            if known
            then (err DbError.other, d)
            else (ok event, record d { events = d.events ++ event ∷ [] }))
    by_key d true same = same
    by_key d false same = (refl, ap (λ l. l ++ event ∷ []) same)

    by_outages :
        (outages : List Bool)
        → Inserted event db (
            query_with outages
              (λ d.
                if has_event event.id d.events
                then (err DbError.other, d)
                else (ok event, record d { events = d.events ++ event ∷ [] }))
              db)
    by_outages [] = by_key db (has_event event.id db.events) refl
    by_outages (true ∷ rest) = refl
    by_outages (false ∷ rest) =
        by_key (record db { outages = rest }) (has_event event.id db.events) refl

module _ {Value : Type 0} (ext : External Value) where
  store_row-IsUntouched :
      (id : PgUuid) (plaintext : Bytes) (row : Result ApiSecret) (a : Application)
      → IsUntouched a (store_row ext id plaintext row a).1
  unfolding store_row
  store_row-IsUntouched id plaintext (ok s) a = record { same_events = refl; same_chan = refl }
  store_row-IsUntouched id plaintext (err e) a = record { same_events = refl; same_chan = refl }

  secret_query :
      (id : PgUuid) (a : Application) → IsUntouched a (in_db (get_api_secret_by_id id) a).1
  unfolding in_db get_api_secret_by_id
  secret_query id a = record {
    same_events = query-events _ a.db.outages a.db (λ d. refl);
    same_chan = refl;
  }

  pub validate-IsUntouched :
      (id : ℕ) (plaintext : Bytes) (a : Application)
      → IsUntouched a (validate_secret_by_id ext id plaintext a).1
  unfolding validate_secret_by_id validate_cached
  validate-IsUntouched id plaintext a = by_entry (Cache.get (pg_uuid id) a.secret_cache)
    where
      by_entry :
          (cached : Option (CacheEntry ApiSecret))
          → IsUntouched a (validate_cached ext (pg_uuid id) plaintext cached a).1
      by_entry (some entry) = record { same_events = refl; same_chan = refl }
      by_entry none = IsUntouched-trans _ _ _ (secret_query (pg_uuid id) a) (
          store_row-IsUntouched (pg_uuid id) plaintext
            (in_db (get_api_secret_by_id (pg_uuid id)) a).0
            (in_db (get_api_secret_by_id (pg_uuid id)) a).1)

  store_log_config-IsUntouched :
      (subject : Bytes) (row : Result LogConfig) (a : Application)
      → IsUntouched a (store_log_config subject row a).1
  unfolding store_log_config
  store_log_config-IsUntouched subject (ok c) a = record { same_events = refl; same_chan = refl }
  store_log_config-IsUntouched subject (err e) a = record { same_events = refl; same_chan = refl }

  config_query :
      (subject : Bytes) (a : Application)
      → IsUntouched a (in_db (get_log_config_by_subject subject) a).1
  unfolding in_db get_log_config_by_subject
  config_query subject a = record {
    same_events = query-events _ a.db.outages a.db (λ d. refl);
    same_chan = refl;
  }

  pub extract-IsUntouched :
      (subject content : Bytes) (a : Application)
      → IsUntouched a (extract_log_properties ext subject content a).1
  unfolding extract_log_properties get_log_config log_config_cached
  extract-IsUntouched subject content a = by_entry (Cache.get subject a.log_config_cache)
    where
      by_entry :
          (cached : Option (CacheEntry LogConfig))
          → IsUntouched a (log_config_cached subject cached a).1
      by_entry (some entry) = record { same_events = refl; same_chan = refl }
      by_entry none = IsUntouched-trans _ _ _ (config_query subject a) (
          store_log_config-IsUntouched subject (in_db (get_log_config_by_subject subject) a).0
            (in_db (get_log_config_by_subject subject) a).1)
