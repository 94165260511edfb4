-- ===== src/Secrets/Coherence.antt =====
-- The cache in front of the secrets: when it is invisible, and when it is not.
use slurpee.Prelude.{
  ℕ, true, false, ◌≡◌, refl, ap, Option, none, some, [], arith, find, if◌then◌else◌,
}
use slurpee.Prelude.Keys.{Bytes, ◌==◌}
use slurpee.Model.{PgUuid, pg_uuid, uuid_eq, ApiSecret}
use slurpee.Db.{Db, query_idle, one_row}
use slurpee.Prelude.Action.{Result}
use slurpee.Db.Secrets.{get_api_secret_by_id}
use slurpee.External.{External}
use slurpee.Cache
use slurpee.Cache.{Cache, CacheEntry}
use slurpee.Cache.Agreement.{Agrees, set-Agrees}
use slurpee.App.{Application, in_db}
use slurpee.Secrets.{
  Validation, valid, secret_not_found, invalid_secret, zero_secret, check_secret,
  validate_secret_by_id, store_row, validate_cached,
}

-- The row of the table.
abbrev pub stored : Application → PgUuid → Option ApiSecret
stored a id = find (λ s. s.id == id) a.db.api_secrets

pub record IsCoherent (a : Application) : Type 0 where
  pub at : (id : PgUuid) → Agrees (Cache.get id a.secret_cache) (stored a id)

pub query_row :
    (a : Application) (id : PgUuid)
    → a.db.outages ≡ []
    → in_db (get_api_secret_by_id id) a ≡ (one_row (stored a id), a)
unfolding get_api_secret_by_id in_db
query_row a id up =
    ap (λ (p : Result ApiSecret × Db). (p.0, record a { db = p.1 })) (query_idle _ a.db up)

module _ {Value : Type 0} (ext : External Value) where
  -- What a validation against the table alone answers.
  abbrev pub check_row : Option ApiSecret → Bytes → Validation
  check_row none plaintext = secret_not_found
  check_row (some s) plaintext =
      if ext.compare_hash s.secret_hash plaintext then valid s else invalid_secret

  check_entry :
      (entry : CacheEntry ApiSecret) (row : Option ApiSecret) (plaintext : Bytes)
      → Agrees (some entry) row
      → check_secret ext entry.value entry.found plaintext ≡ check_row row plaintext
  unfolding check_secret
  check_entry entry none plaintext h = ground arith
  check_entry entry (some s) plaintext h = ground arith

  -- The answer, the coherence of one entry, and the table, after the query.
  store_row-Agrees :
      (a : Application) (id j : PgUuid) (plaintext : Bytes) (row : Option ApiSecret)
      → stored a id ≡ row
      → Agrees (Cache.get j a.secret_cache) (stored a j)
      → let (answer, b) = store_row ext id plaintext (one_row row) a in
        (answer ≡ check_row row plaintext)
        × Agrees (Cache.get j b.secret_cache) (stored a j)
        × (b.db ≡ a.db)
  unfolding store_row check_secret Cache.get Cache.set
  store_row-Agrees a id j plaintext none e h =
      (refl, set-Agrees id j zero_secret false a.secret_cache (stored a) (rw e refl) h, refl)
  store_row-Agrees a id j plaintext (some s) e h =
      (refl, set-Agrees id j s true a.secret_cache (stored a) (rw e (refl, refl)) h, refl)

  validate_cached-Agrees :
      (a : Application) (id j : PgUuid) (plaintext : Bytes) (cached : Option (CacheEntry ApiSecret))
      → a.db.outages ≡ []
      → Agrees cached (stored a id)
      → Agrees (Cache.get j a.secret_cache) (stored a j)
      → let (answer, b) = validate_cached ext id plaintext cached a in
        (answer ≡ check_row (stored a id) plaintext)
        × Agrees (Cache.get j b.secret_cache) (stored a j)
        × (b.db ≡ a.db)
  unfolding validate_cached
  validate_cached-Agrees a id j plaintext (some entry) up k h =
      (check_entry entry (stored a id) plaintext k, h, refl)
  validate_cached-Agrees a id j plaintext none up k h =
      rw (query_row a id up) (store_row-Agrees a id j plaintext (stored a id) refl h)

  -- While the database answers and every cached entry agrees with its table, the cache is invisible:
  -- a validation answers what the table says of the id and the plaintext, found or not, the table
  -- is unchanged, and every cached entry still agrees with it.
  pub validate_secret_by_id-IsCoherent :
      (a : Application) (id : ℕ) (plaintext : Bytes)
      → a.db.outages ≡ []
      → IsCoherent a
      → let (answer, b) = validate_secret_by_id ext id plaintext a in
        (answer ≡ check_row (stored a (pg_uuid id)) plaintext) × (b.db ≡ a.db) × IsCoherent b
  unfolding validate_secret_by_id
  validate_secret_by_id-IsCoherent a id plaintext up c =
      let step = λ (j : PgUuid).
        validate_cached-Agrees a (pg_uuid id) j plaintext (Cache.get (pg_uuid id) a.secret_cache) up
          (c.at (pg_uuid id)) (c.at j) in
      ((step (pg_uuid id)).0, (step (pg_uuid id)).2, record { at = λ j. rw (step j).2 (step j).1 })
