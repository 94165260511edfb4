-- ===== src/Views/Secrets/Effects.antt =====
-- What the queries behind the form of a new secret keep and return, while the database answers.
use mathlib.Core.List.{reverse}
use slurpee.Prelude.{
  ℕ, ◌≡◌, refl, ap, ◌∙◌, arith, true, false, Option, none, some, List, [], ◌∷◌, ◌++◌, contains_if,
}
use slurpee.Prelude.Action.{Action, Result, ok, on_option}
use slurpee.Prelude.Keys.{Bytes, ◌==◌, lookup}
use slurpee.Model.{PgUuid, pg_uuid, uuid_eq, ApiSecret, Subscriber}
use slurpee.Db.{Db, query, query_idle}
use slurpee.Db.Subscribers.{list_subscribers}
use slurpee.Db.Pages.{
  InsertApiSecretParams, new_secret, insert_api_secret, add_api_secret_subscriber, list_api_secrets,
}
use slurpee.External.{External}
use slurpee.Cache
use slurpee.Cache.{new_cache}
use slurpee.App.{Application, in_db}
use slurpee.Secrets.{valid, validate_secret_by_id}
use slurpee.Secrets.Coherence.{stored, validate_secret_by_id-IsCoherent}
use slurpee.Views.{Platform, shown, or_internal_error}
use slurpee.Views.Secrets.{
  SecretsPage, secret_rows, subscriber_options, render_secrets_page, associate_all,
}

-- The database answers, and has these secrets.
pub record IsIntact (secrets : List ApiSecret) (a : Application) : Type 0 where
  pub up : a.db.outages ≡ []
  pub same : a.db.api_secrets ≡ secrets

-- A query that, with the database up, changes neither.
module _ {A : Type 0} where
  in_db-IsIntact :
      (secrets : List ApiSecret) (op : Action Db (Result A)) (a : Application)
      → ((db : Db) → (op db).1.outages ≡ db.outages)
      → ((db : Db) → (op db).1.api_secrets ≡ db.api_secrets)
      → IsIntact secrets a
      → IsIntact secrets (in_db (query op) a).1
  unfolding in_db
  in_db-IsIntact secrets op a keeps_up keeps_same h =
      rw (query_idle op a.db h.up)
        (record { up = keeps_up a.db ∙ h.up; same = keeps_same a.db ∙ h.same })

add-IsIntact :
    (secrets : List ApiSecret) (secret_id subscriber_id : PgUuid) (a : Application)
    → IsIntact secrets a
    → IsIntact secrets (in_db (add_api_secret_subscriber secret_id subscriber_id) a).1
unfolding add_api_secret_subscriber
add-IsIntact secrets secret_id subscriber_id a h =
    in_db-IsIntact secrets _ a (λ db. ground arith) (λ db. ground arith) h

module _ {Value : Type 0} (ext : External Value) (platform : Platform) where
  pub associate_all-IsIntact :
      (secrets : List ApiSecret) (id : PgUuid) (ids : List Bytes) (a : Application)
      → IsIntact secrets a
      → IsIntact secrets (associate_all ext platform id ids a).1
  unfolding associate_all
  associate_all-IsIntact secrets id [] a h = h
  associate_all-IsIntact secrets id (text ∷ ids) a h =
      parsed (ext.uuid_parse text) (associate_all-IsIntact secrets id ids)
    where
      parsed :
          (o : Option ℕ)
          → ((b : Application)
              → IsIntact secrets b
              → IsIntact secrets (associate_all ext platform id ids b).1)
          → IsIntact secrets
              (on_option o
                (associate_all ext platform id ids)
                (λ n b.
                  associate_all ext platform id ids
                    (in_db (add_api_secret_subscriber id (pg_uuid n)) b).1)
                a).1
      parsed none go = go a h
      parsed (some n) go = go _ (add-IsIntact secrets id (pg_uuid n) a h)

  pub insert_row :
      (a : Application) (p : InsertApiSecretParams)
      → a.db.outages ≡ []
      → contains_if (λ s. s.id == p.id) a.db.api_secrets ≡ false
      → in_db (insert_api_secret p) a ≡ (
        ok (new_secret p a.db.now),
        record a {
          db = record (a.db) { api_secrets = a.db.api_secrets ++ new_secret p a.db.now ∷ [] };
        },
      )
  unfolding insert_api_secret in_db new_secret
  insert_row a p up new =
      ap (λ (r : Result ApiSecret × Db). (r.0, record a { db = r.1 }))
        (query_idle _ a.db up ∙ rw new refl)

  pub subscribers_row :
      (a : Application)
      → a.db.outages ≡ []
      → in_db list_subscribers a ≡ (ok (reverse a.db.subscribers), a)
  unfolding list_subscribers in_db
  subscribers_row a up =
      ap (λ (r : Result (List Subscriber) × Db). (r.0, record a { db = r.1 }))
        (query_idle _ a.db up)

  secrets_row :
      (a : Application)
      → a.db.outages ≡ []
      → (rows : List (ApiSecret × Bytes)) × (in_db (list_api_secrets platform.engine) a
          ≡ (ok rows, a))
  unfolding list_api_secrets in_db
  secrets_row a up = (
    _,
    ap (λ (r : Result (List (ApiSecret × Bytes)) × Db). (r.0, record a { db = r.1 }))
        (query_idle _ a.db up),
  )

  -- The page that shows a new secret, which changes nothing.
  pub render_idle :
      (a : Application) (id text : Bytes)
      → a.db.outages ≡ []
      → (p : SecretsPage) × (render_secrets_page ext platform [] [] id text a ≡ (shown 200 p, a))
        × (p.created_id ≡ id)
        × (p.plaintext ≡ text)
        × (p.error ≡ [])
  unfolding render_secrets_page or_internal_error
  render_idle a id text up =
      let (rows, e) = secrets_row a up in
      let p : SecretsPage = record {
        rows = secret_rows ext platform rows;
        options = subscriber_options ext platform (reverse a.db.subscribers);
        success = [];
        error = [];
        created_id = id;
        plaintext = text;
      } in
      (p, rw (e, subscribers_row a up) refl, refl, refl, refl)

  -- A validation that finds nothing in the cache and the row in the table.
  pub validate_stored :
      (b : Application) (n : ℕ) (secret : ApiSecret) (text : Bytes)
      → b.db.outages ≡ []
      → b.secret_cache ≡ new_cache
      → stored b (pg_uuid n) ≡ some secret
      → ext.compare_hash secret.secret_hash text ≡ true
      → (validate_secret_by_id ext n text b).0 ≡ valid secret
  unfolding new_cache lookup Cache.get
  validate_stored b n secret text up fresh found matches =
      (validate_secret_by_id-IsCoherent ext b n text up (record { at = λ id. rw fresh tt })).0
      ∙ rw (found, matches) refl
