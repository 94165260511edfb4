-- ===== src/Db/Pages.antt =====
-- queries/log_config.sql, queries/api_secrets.sql and queries/subscribers.sql: what the web pages
-- list and change. `engine` orders texts.
use mathlib.Core.List.{reverse}
use slurpee.Prelude.{
  ℕ, Bool, ◌&&◌, not, Option, List, [], ◌∷◌, ◌++◌, length, find, keep_if, contains_if, update_if,
  map, if◌then◌else◌,
}
use slurpee.Prelude.Action.{Action, Result, ok, err, other, on_option}
use slurpee.Prelude.Int.{ℤ}
use slurpee.Prelude.Keys.{Bytes, codes, ◌==◌, bytes_eq}
use slurpee.Prelude.Sort.{sort_by}
use slurpee.Prelude.Text.{join}
use slurpee.Model.{PgUuid, uuid_eq, Subscriber, ApiSecret, LogConfig}
use slurpee.Db.{Db, query, one_row}
use slurpee.Db.Subscribers.{owned_by}
use slurpee.Db.Listings.{Engine}

pub record UpsertLogConfigParams : Type 0 where
  pub id : PgUuid
  pub subject : Bytes
  -- A nil slice, here `none`, is sent as NULL.
  pub log_properties : Option (List Bytes)

abbrev upsert_row : LogConfig → Db → Result LogConfig × Db
upsert_row row db =
    let same_subject = λ (c : LogConfig). c.subject == row.subject in
    let rows =
      update_if same_subject (λ c. record c { log_properties = row.log_properties })
        db.log_configs in
    if contains_if same_subject db.log_configs
    then (one_row (find same_subject rows), record db { log_configs = rows })
    else if contains_if (λ c. c.id == row.id) db.log_configs
    then (err other, db)
    else (ok row, record db { log_configs = db.log_configs ++ row ∷ [] })

-- UpsertLogConfig: the conflict target is `subject`; a clash of ids is an error, and so is NULL, which
-- the column does not take.
unfoldable pub upsert_log_config : UpsertLogConfigParams → Action Db (Result LogConfig)
upsert_log_config p = query (λ db.
    on_option p.log_properties (err other, db)
      λ props. upsert_row (record { id = p.id; subject = p.subject; log_properties = props }) db)

-- DeleteLogConfigForSubject
unfoldable pub delete_log_config_for_subject : Bytes → Action Db (Result (Unit {0}))
delete_log_config_for_subject subject = query (λ db.
    (ok tt, record db { log_configs = keep_if (λ c. not (c.subject == subject)) db.log_configs }))

pub record InsertApiSecretParams : Type 0 where
  pub id : PgUuid
  pub name : Bytes
  pub secret_hash : Bytes
  pub subject_pattern : Bytes

unfoldable pub new_secret : InsertApiSecretParams → ℕ → ApiSecret
new_secret p now = record {
  id = p.id;
  name = p.name;
  secret_hash = p.secret_hash;
  subject_pattern = p.subject_pattern;
  created_at = now;
}

-- InsertApiSecret
unfoldable pub insert_api_secret : InsertApiSecretParams → Action Db (Result ApiSecret)
unfolding new_secret
insert_api_secret p = query (λ db.
    let row = new_secret p db.now in
    if contains_if (λ s. s.id == p.id) db.api_secrets
    then (err other, db)
    else (ok row, record db { api_secrets = db.api_secrets ++ row ∷ [] }))

-- UpdateApiSecret
unfoldable pub update_api_secret : PgUuid → Bytes → Bytes → Action Db (Result ApiSecret)
update_api_secret id name subject_pattern = query (λ db.
    let rows =
      update_if (λ s. s.id == id) (λ s. record s { name = name; subject_pattern = subject_pattern })
        db.api_secrets in
    (one_row (find (λ s. s.id == id) rows), record db { api_secrets = rows }))

unfoldable pub associated : PgUuid → PgUuid → Db → Bool
associated secret_id subscriber_id db =
    contains_if (λ p. p.0 == secret_id && p.1 == subscriber_id) db.api_secret_subscribers

-- AddApiSecretSubscriber: both rows must exist, and an association that exists stays as it is.
unfoldable pub add_api_secret_subscriber : PgUuid → PgUuid → Action Db (Result (Unit {0}))
unfolding associated
add_api_secret_subscriber secret_id subscriber_id = query (λ db.
    if associated secret_id subscriber_id db
    then (ok tt, db)
    else if contains_if (λ s. s.id == secret_id) db.api_secrets
        && contains_if (λ s. s.id == subscriber_id) db.subscribers
    then (
      ok tt,
      record db {
        api_secret_subscribers = db.api_secret_subscribers ++ (secret_id, subscriber_id) ∷ [];
      },
    )
    else (err other, db))

-- RemoveApiSecretSubscriber
unfoldable pub remove_api_secret_subscriber : PgUuid → PgUuid → Action Db (Result (Unit {0}))
remove_api_secret_subscriber secret_id subscriber_id = query (λ db. (
  ok tt,
  record db {
    api_secret_subscribers =
        keep_if (λ p. not (p.0 == secret_id && p.1 == subscriber_id)) db.api_secret_subscribers;
  },
))

-- UpdateSubscriber
unfoldable pub update_subscriber : PgUuid → Bytes → Bytes → ℤ → Action Db (Result Subscriber)
update_subscriber id name auth_secret max_parallel = query (λ db.
    let rows =
      update_if (λ s. s.id == id)
        (λ s. record s {
          name = name;
          auth_secret = auth_secret;
          max_parallel = max_parallel;
          updated_at = db.now;
        })
        db.subscribers in
    (one_row (find (λ s. s.id == id) rows), record db { subscribers = rows }))

-- ListSubscribersWithCounts: each subscriber with the number of its subscriptions, newest first.
unfoldable pub list_subscribers_with_counts : Action Db (Result (List (Subscriber × ℕ)))
list_subscribers_with_counts = query (λ db.
    (ok (map (λ s. (s, length (owned_by s.id db.subscriptions))) (reverse db.subscribers)), db))

module _ (engine : Engine) where
  -- ListLogConfigs
  unfoldable pub list_log_configs : Action Db (Result (List LogConfig))
  list_log_configs =
      query (λ db. (ok (sort_by (λ c d. engine.text_leb c.subject d.subject) db.log_configs), db))

  unfoldable pub subscribers_of : PgUuid → Db → List Subscriber
  unfolding associated
  subscribers_of secret_id db =
      sort_by (λ s t. engine.text_leb s.name t.name)
        (keep_if (λ s. associated secret_id s.id db) db.subscribers)

  -- ListSubscribersForApiSecret
  unfoldable pub list_subscribers_for_api_secret : PgUuid → Action Db (Result (List Subscriber))
  unfolding subscribers_of
  list_subscribers_for_api_secret secret_id = query (λ db. (ok (subscribers_of secret_id db), db))

  -- ListApiSecrets: each secret with the names of its subscribers, newest first.
  unfoldable pub list_api_secrets : Action Db (Result (List (ApiSecret × Bytes)))
  unfolding subscribers_of
  list_api_secrets = query (λ db. (
    ok (
        map
          (λ s. (s, join (codes ", ") (map (λ (t : Subscriber). t.name) (subscribers_of s.id db))))
          (reverse db.api_secrets)),
    db,
  ))
