-- ===== src/Examples/Secrets.antt =====
-- Secrets and sessions.
use slurpee.Prelude.{◌∷◌, ◌+◌, ◌≡◌, refl, find, none, some, [], ltb, if◌then◌else◌}
use slurpee.Prelude.Keys.{lookup, codes, bytes_eq, ◌==◌, ==_refl}
use slurpee.Model.{pg_uuid, uuid_eq, uuid_beq}
use slurpee.Cache.{get}
use slurpee.App.{in_db}
use slurpee.Db.Secrets.{get_api_secret_by_id}
use slurpee.Secrets.{valid, secret_not_found, validate_secret_by_id, store_row, delete_secret}
use slurpee.Secrets.Coherence.{stored, IsCoherent, check_row, validate_secret_by_id-IsCoherent}
use slurpee.Secrets.Staleness.{validate_secret_by_id_outage, validate_secret_by_id_overtaken}
use slurpee.Sessions.{SessionStore, new_session_store, session_life, create_session, get_session}
use slurpee.Sessions.Lifetime.{get_session-create_session}
use slurpee.Examples.{sample_external, sample_app, sample_db, sample_secret, down_app}

sample_app-IsCoherent : IsCoherent sample_app
unfolding get lookup
sample_app-IsCoherent = record { at = λ id. tt }

validate_secret_by_id-IsCoherent_example :
    let (answer, b) = validate_secret_by_id sample_external 7 (codes "hunter2") sample_app in
    (answer ≡ check_row sample_external (stored sample_app (pg_uuid 7)) (codes "hunter2"))
    × (b.db ≡ sample_db)
    × IsCoherent b
validate_secret_by_id-IsCoherent_example =
    validate_secret_by_id-IsCoherent sample_external sample_app 7 (codes "hunter2") refl
      sample_app-IsCoherent

no_entry : get (pg_uuid 7) down_app.secret_cache ≡ none
unfolding get lookup
no_entry = refl

validate_secret_by_id_outage_example :
    (validate_secret_by_id sample_external 7
      (codes "hunter2")
      (record ((validate_secret_by_id sample_external 7 (codes "hunter2") down_app).1) {
        db = sample_db;
      })).0
    ≡ secret_not_found
validate_secret_by_id_outage_example =
    validate_secret_by_id_outage sample_external down_app 7 (codes "hunter2") (codes "hunter2") []
      sample_db no_entry refl

sample_stored : stored sample_app (pg_uuid 7) ≡ some sample_secret
unfolding find uuid_beq
sample_stored = refl

validate_secret_by_id_overtaken_example :
    let (row, b) = in_db (get_api_secret_by_id (pg_uuid 7)) sample_app in
    let c = (delete_secret (pg_uuid 7) b).1 in
    let d = (store_row sample_external (pg_uuid 7) (codes "hunter2") row c).1 in
    (stored d (pg_uuid 7) ≡ none)
    × ((validate_secret_by_id sample_external 7 (codes "hunter2") (record d { db = down_app.db })).0
        ≡ valid sample_secret)
validate_secret_by_id_overtaken_example =
    validate_secret_by_id_overtaken sample_external sample_app 7 (codes "hunter2") sample_secret
      down_app.db refl sample_stored (==_refl (codes "hunter2"))

get_session-create_session_example :
    (get_session (codes "t") 5 (create_session (some (codes "t")) 1 new_session_store).1).0 ≡ (
      if codes "t" == codes "t"
      then (if ltb (1 + session_life) 5
          then none
          else some (record { expires_at = 1 + session_life }))
      else (get_session (codes "t") 5 new_session_store).0)
get_session-create_session_example =
    get_session-create_session (codes "t") (codes "t") 1 5 new_session_store

abbrev ended : SessionStore
ended = record { sessions = (codes "t", record { expires_at = 1 }) ∷ [] }
