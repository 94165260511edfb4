-- ===== src/Secrets/Staleness.antt =====
-- Where the cache of secrets shows: a failed query is remembered, and a query can be overtaken.
use slurpee.Prelude.{
  keep_if, not, ℕ, Bool, true, false, ◌≡◌, refl, ◌∙◌, none, some, List, [], ◌∷◌, find-keep_if-not,
  keep_if, not,
}
use slurpee.Prelude.Action.{Result, ok, err, other}
use slurpee.Prelude.Keys.{Bytes, ◌==◌, ==_refl}
use slurpee.Model.{PgUuid, pg_uuid, uuid_eq, ApiSecret}
use slurpee.Db.{Db, query_idle, query_down}
use slurpee.Db.Secrets.{get_api_secret_by_id, delete_api_secret}
use slurpee.External.{External}
use slurpee.Cache
use slurpee.Cache.Agreement.{get-set}
use slurpee.App.{Application, in_db}
use slurpee.Secrets.{
  valid, secret_not_found, zero_secret, check_secret, validate_secret_by_id, validate_cached,
  store_row, delete_secret,
}
use slurpee.Secrets.Coherence.{stored, query_row}

deleted : PgUuid → Db → Db
deleted id db = record db {
  api_secrets = keep_if (λ s. not (s.id == id)) db.api_secrets;
  api_secret_subscribers = keep_if (λ p. not (p.0 == id)) db.api_secret_subscribers;
}

delete_row :
    (id : PgUuid) (db : Db) → db.outages ≡ [] → delete_api_secret id db ≡ (ok tt, deleted id db)
unfolding delete_api_secret deleted
delete_row id db up = query_idle _ db up

stored-delete_secret :
    (a : Application) (id : PgUuid) → a.db.outages ≡ [] → stored (delete_secret id a).1 id ≡ none
unfolding delete_secret in_db
stored-delete_secret a id up =
    rw (delete_row id a.db up)
      (unfold deleted in find-keep_if-not (λ s. s.id == id) a.db.api_secrets)

module _ {Value : Type 0} (ext : External Value) where
  -- What a stored answer makes of every later validation of the id, whatever the table then holds.
  store_row-served :
      (id : ℕ) (plaintext : Bytes) (row : Result ApiSecret) (a : Application) (db : Db) (p : Bytes)
      → (validate_secret_by_id ext id p
          (record ((store_row ext (pg_uuid id) plaintext row a).1) { db = db })).0
        ≡ (elim row [ err e ↦ secret_not_found | ok s ↦ check_secret ext s true p ])
  unfolding validate_secret_by_id validate_cached store_row check_secret
  store_row-served id plaintext (err e) a db p =
      rw (get-set (pg_uuid id) (pg_uuid id) zero_secret false a.secret_cache, ==_refl (pg_uuid id))
  store_row-served id plaintext (ok s) a db p =
      rw (get-set (pg_uuid id) (pg_uuid id) s true a.secret_cache, ==_refl (pg_uuid id))

  stored-store_row :
      (id : PgUuid) (plaintext : Bytes) (row : Result ApiSecret) (a : Application)
      → stored (store_row ext id plaintext row a).1 id ≡ stored a id
  unfolding store_row
  stored-store_row id plaintext (err e) a = refl
  stored-store_row id plaintext (ok s) a = refl

  check_secret-valid :
      (s : ApiSecret) (p : Bytes)
      → ext.compare_hash s.secret_hash p ≡ true
      → check_secret ext s true p ≡ valid s
  unfolding check_secret
  check_secret-valid s p good = rw good

  validate-down :
      (a : Application) (id : ℕ) (plaintext : Bytes) (rest : List Bool)
      → Cache.get (pg_uuid id) a.secret_cache ≡ none
      → a.db.outages ≡ true ∷ rest
      → validate_secret_by_id ext id plaintext a
        ≡ store_row ext
            (pg_uuid id)
            plaintext
            (err other)
            (record a { db = record a.db { outages = rest } })
  unfolding validate_secret_by_id validate_cached in_db get_api_secret_by_id
  validate-down a id plaintext rest miss down =
      rw (miss, validate_cached) (rw (query_down _ a.db rest down) refl)

  -- One failed query locks a secret out: if the first validation of an id meets a database error,
  -- every later validation of it fails, for any plaintext and whatever the database then holds, as
  -- long as the cache is not flushed.
  pub validate_secret_by_id_outage :
      (a : Application) (id : ℕ) (plaintext p : Bytes) (rest : List Bool) (db : Db)
      → Cache.get (pg_uuid id) a.secret_cache ≡ none
      → a.db.outages ≡ true ∷ rest
      → (validate_secret_by_id ext id p
          (record ((validate_secret_by_id ext id plaintext a).1) { db = db })).0
        ≡ secret_not_found
  validate_secret_by_id_outage a id plaintext p rest db miss down =
      rw (validate-down a id plaintext rest miss down) (
        store_row-served id plaintext (err other) (record a { db = record a.db { outages = rest } })
          db p)

  -- A deleted secret can stay in force: when a deletion, flush included, falls between the query
  -- of a validation and the write of its result to the cache, the id is absent from the table, and
  -- a validation with the plaintext that the secret had is answered from the cache and accepts it,
  -- whatever the database then holds.
  pub validate_secret_by_id_overtaken :
      (a : Application) (id : ℕ) (plaintext : Bytes) (s : ApiSecret) (later : Db)
      → a.db.outages ≡ []
      → stored a (pg_uuid id) ≡ some s
      → ext.compare_hash s.secret_hash plaintext ≡ true
      → let (row, b) = in_db (get_api_secret_by_id (pg_uuid id)) a in
        let c = (delete_secret (pg_uuid id) b).1 in
        let d = (store_row ext (pg_uuid id) plaintext row c).1 in
        (stored d (pg_uuid id) ≡ none)
        × ((validate_secret_by_id ext id plaintext (record d { db = later })).0 ≡ valid s)
  validate_secret_by_id_overtaken a id plaintext s later up has good =
      rw (query_row a (pg_uuid id) up, has)
        (let c = (delete_secret (pg_uuid id) a).1 in
          (
            stored-store_row (pg_uuid id) plaintext (ok s) c
                ∙ stored-delete_secret a (pg_uuid id) up,
            store_row-served id plaintext (ok s) c later plaintext
                ∙ check_secret-valid s plaintext good,
          ))
