-- ===== src/Db/Secrets.antt =====
-- queries/api_secrets.sql and queries/log_config.sql, as far as app/ calls them; Pages has the rest.
use slurpee.Prelude.{Bool, ◌&&◌, not, find, keep_if, contains_if}
use slurpee.Prelude.Action.{Action, Result, ok}
use slurpee.Prelude.Keys.{Bytes, ◌==◌, bytes_eq}
use slurpee.Model.{PgUuid, uuid_eq, ApiSecret, LogConfig}
use slurpee.Db.{Db, query, one_row}

-- GetApiSecretByID
unfoldable pub get_api_secret_by_id : PgUuid → Action Db (Result ApiSecret)
get_api_secret_by_id id = query (λ db. (one_row (find (λ s. s.id == id) db.api_secrets), db))

-- DeleteApiSecret: the associations go with the secret.
unfoldable pub delete_api_secret : PgUuid → Action Db (Result (Unit {0}))
delete_api_secret id = query (λ db. (
  ok tt,
  record db {
    api_secrets = keep_if (λ s. not (s.id == id)) db.api_secrets;
    api_secret_subscribers = keep_if (λ p. not (p.0 == id)) db.api_secret_subscribers;
  },
))

-- GetApiSecretSubscriberExists
unfoldable pub get_api_secret_subscriber_exists : PgUuid → PgUuid → Action Db (Result Bool)
get_api_secret_subscriber_exists secret_id subscriber_id = query (λ db. (
  ok (contains_if (λ p. p.0 == secret_id && p.1 == subscriber_id) db.api_secret_subscribers),
  db,
))

-- GetLogConfigBySubject
unfoldable pub get_log_config_by_subject : Bytes → Action Db (Result LogConfig)
get_log_config_by_subject subject =
    query (λ db. (one_row (find (λ c. c.subject == subject) db.log_configs), db))
