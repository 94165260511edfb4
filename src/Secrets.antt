-- ===== src/Secrets.antt =====
-- app/secrets.go: the validation of an API secret, and its scopes. (The pattern matching of the
-- same file is in Glob.)
pub mod Coherence
pub mod Staleness
pub mod Generation
use slurpee.Prelude.{ℕ, Bool, true, false, Option, none, some, [], if◌then◌else◌}
use slurpee.Prelude.Action.{Action, pure, ◌>>=◌, ◌>>◌, modify, gets, Result, ok, err, on_result}
use slurpee.Prelude.Keys.{Bytes}
use slurpee.Model.{PgUuid, pg_uuid, uuid_eq, ApiSecret}
use slurpee.Db.Secrets.{delete_api_secret, get_api_secret_by_id, get_api_secret_subscriber_exists}
use slurpee.External.{External}
use slurpee.Cache
use slurpee.Cache.{Cache, CacheEntry}
use slurpee.App.{Application, in_db}

-- `db.ApiSecret{}`
abbrev pub zero_secret : ApiSecret
zero_secret = record {
  id = record { bytes = 0; valid = false };
  name = [];
  secret_hash = [];
  subject_pattern = [];
  created_at = 0;
}

pub data Validation : Type 0 where
  valid : ApiSecret → Validation
  secret_not_found invalid_secret : Validation

cache_secret : PgUuid → ApiSecret → Bool → Action Application (Unit {0})
cache_secret id secret found =
    modify (λ a. record a { secret_cache = Cache.set id secret found a.secret_cache })

module _ {Value : Type 0} (ext : External Value) where
  -- The end of `ValidateSecretByID`, after its lookup.
  unfoldable pub check_secret : ApiSecret → Bool → Bytes → Validation
  check_secret secret found plaintext =
      if found
      then (if ext.compare_hash secret.secret_hash plaintext then valid secret else invalid_secret)
      else secret_not_found

  -- `ValidateSecretByID` after its query, which a missing cache entry causes.
  unfoldable pub store_row : PgUuid → Bytes → Result ApiSecret → Action Application Validation
  unfolding cache_secret
  store_row id plaintext (err e) = do cache_secret id zero_secret false; pure secret_not_found
  store_row id plaintext (ok secret) = do
    cache_secret id secret true
    pure (check_secret secret true plaintext)

  unfoldable pub validate_cached :
      PgUuid → Bytes → Option (CacheEntry ApiSecret) → Action Application Validation
  unfolding store_row
  validate_cached id plaintext (some entry) = pure (check_secret entry.value entry.found plaintext)
  validate_cached id plaintext none = do
    row ← in_db (get_api_secret_by_id id)
    store_row id plaintext row

  -- `ValidateSecretByID`
  unfoldable pub validate_secret_by_id : ℕ → Bytes → Action Application Validation
  unfolding validate_cached
  validate_secret_by_id secret_id plaintext = do
    cached ← gets (λ a. Cache.get (pg_uuid secret_id) a.secret_cache)
    validate_cached (pg_uuid secret_id) plaintext cached

-- `CheckSubscriberScope`
unfoldable pub check_subscriber_scope : PgUuid → PgUuid → Action Application (Result Bool)
check_subscriber_scope secret_id subscriber_id =
    in_db (get_api_secret_subscriber_exists secret_id subscriber_id)

-- `secretDeleteHandler` of views/secrets.go, behind the parsing of the id.
unfoldable pub delete_secret : PgUuid → Action Application (Result (Unit {0}))
delete_secret id = do
  deleted ← in_db (delete_api_secret id)
  on_result deleted (λ e. pure (err e))
      λ _. do modify (λ a. record a { secret_cache = Cache.flush a.secret_cache }); pure (ok tt)
