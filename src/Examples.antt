-- ===== src/Examples.antt =====
-- Tests, and the application of the theorems to concrete inputs. Here: the data they share.
-- The codec of `sample_external` writes an object as `{` and then one byte for each key and value;
-- a secret's hash is its plaintext.
pub mod Patterns
pub mod Choices
pub mod Outcomes
pub mod Requests
pub mod Secrets
pub mod Buses
pub mod Deliveries
pub mod Pages
pub mod Limits
pub mod Registrations
use slurpee.Prelude.{
  ℕ, ◌+◌, Bool, true, false, Option, none, some, List, [], ◌∷◌, ◌++◌, if◌then◌else◌,
}
use slurpee.Prelude.Int.{pos}
use slurpee.Prelude.Keys.{Bytes, bytes_eq, ◌==◌, nat_eq, codes}
use slurpee.Model.{PgUuid, pg_uuid, Event, Subscriber, Subscription, ApiSecret, pending, uuid_eq}
use slurpee.Db.{Db}
use slurpee.External.{External}
use slurpee.Cache.{new_cache}
use slurpee.SubscriptionCache.{new_subscription_cache}
use slurpee.EventBus.{new_event_bus}
use slurpee.Sessions.{new_session_store}
use slurpee.App.{Application, AppConfig}

abbrev parse_pairs : Bytes → List (Bytes × Bytes)
parse_pairs [] = []
parse_pairs (k ∷ []) = []
parse_pairs (k ∷ v ∷ rest) = (k ∷ [], v ∷ []) ∷ parse_pairs rest

abbrev parse_object : Bytes → Option (List (Bytes × Bytes))
parse_object [] = none
parse_object (c ∷ rest) = if c == b'{' then some (parse_pairs rest) else none

abbrev flatten : List (Bytes × Bytes) → Bytes
flatten [] = []
flatten ((k, v) ∷ rest) = k ++ v ++ flatten rest

abbrev parse_id : Bytes → Option ℕ
parse_id (c ∷ []) = some c
parse_id _ = none

abbrev pub sample_external : External Bytes
sample_external = record {
  unmarshal_object = parse_object;
  marshal = λ v. v;
  as_string = λ v. some v;
  marshal_headers = flatten;
  uuid_parse = parse_id;
  uuid_string = λ n. n ∷ [];
  new_v7 = λ n. n + 1000;
  compare_hash = λ hash plaintext. hash == plaintext;
}

abbrev pub sample_config : AppConfig
sample_config = record {
  admin_secret = codes "admin";
  max_parallel = pos 1;
  max_retries = pos 5;
  max_backoff_seconds = pos 300;
}

abbrev pub sample_secret : ApiSecret
sample_secret = record {
  id = pg_uuid 7;
  name = codes "orders";
  secret_hash = codes "hunter2";
  subject_pattern = codes "order.*";
  created_at = 1;
}

abbrev pub sample_subscriber : Subscriber
sample_subscriber = record {
  id = pg_uuid 3;
  name = codes "billing";
  endpoint_url = codes "http://billing";
  auth_secret = codes "s";
  max_parallel = pos 2;
  created_at = 1;
  updated_at = 1;
}

abbrev pub sample_subscription : Subscription
sample_subscription = record {
  id = pg_uuid 5;
  subscriber_id = pg_uuid 3;
  subject_pattern = codes "order.*";
  filter = codes "{ab";
  max_retries = some (pos 2);
  created_at = 2;
  updated_at = 2;
}

abbrev pub sample_event : Event
sample_event = record {
  id = pg_uuid 9;
  subject = codes "order.paid";
  timestamp = 10;
  trace_id = record { bytes = 0; valid = false };
  content = codes "{cdab";
  retry_count = 0;
  delivery_status = pending;
  status_updated_at = some 10;
}

abbrev pub sample_db : Db
sample_db = record {
  events = sample_event ∷ [];
  subscribers = sample_subscriber ∷ [];
  subscriptions = sample_subscription ∷ [];
  delivery_attempts = [];
  api_secrets = sample_secret ∷ [];
  api_secret_subscribers = (pg_uuid 7, pg_uuid 3) ∷ [];
  log_configs = [];
  now = 100;
  outages = [];
}

abbrev pub sample_app : Application
sample_app = record {
  config = sample_config;
  db = sample_db;
  delivery_chan = sample_event ∷ [];
  event_bus = record { next_id = 0; subscribers = []; next_channel = 0 };
  sessions = record { sessions = [] };
  secret_cache = record { items = [] };
  log_config_cache = record { items = [] };
  subscription_cache = record { loaded = false; subscribers = []; subscriptions = [] };
  now = 100;
  drawn = 0;
}

abbrev pub down_app : Application
down_app = record sample_app { db = record sample_db { outages = true ∷ [] } }
