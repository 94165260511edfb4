-- ===== src/App.antt =====
-- The `Application` of app/application.go, the part of `AppConfig` (config/configuration.go) that
-- the code reads, and the calls of its parts.
-- The clock stands still within a call; the environment moves it between calls.
use slurpee.Prelude.{ℕ, suc, List, ◌∷◌, ◌++◌, []}
use slurpee.Prelude.Action.{Action}
use slurpee.Prelude.Int.{ℤ}
use slurpee.Prelude.Keys.{Bytes}
use slurpee.Model.{PgUuid, pg_uuid, Event, ApiSecret, LogConfig}
use slurpee.Db.{Db}
use slurpee.Cache.{Cache}
use slurpee.SubscriptionCache.{SubscriptionCache, Cached}
use slurpee.EventBus
use slurpee.EventBus.{EventBus, BusMessage}
use slurpee.Sessions.{SessionStore}
use slurpee.External.{External}

pub record AppConfig : Type 0 where
  pub admin_secret : Bytes
  pub max_parallel : ℤ
  pub max_retries : ℤ
  pub max_backoff_seconds : ℤ

pub record Application : Type 0 where
  pub config : AppConfig
  pub db : Db
  -- What was sent to `DeliveryChan` and not yet received, oldest first.
  pub delivery_chan : List Event
  pub event_bus : EventBus
  pub sessions : SessionStore
  pub secret_cache : Cache PgUuid ApiSecret
  pub log_config_cache : Cache Bytes LogConfig
  pub subscription_cache : SubscriptionCache
  -- `time.Now()`
  pub now : ℕ
  -- How many ids `uuid.NewV7` has made.
  pub drawn : ℕ

unfoldable pub in_db : {A : Type 0} → Action Db A → Action Application A
in_db m a = let (x, db) = m a.db in (x, record a { db = db })

unfoldable pub in_subscription_cache : {A : Type 0} → Action Cached A → Action Application A
in_subscription_cache m a =
    let (x, cached) = m (a.subscription_cache, a.db) in
    (x, record a { subscription_cache = cached.0; db = cached.1 })

-- `slurpee.EventBus.Publish`
unfoldable pub publish : BusMessage → Action Application (Unit {0})
publish msg a = (tt, record a { event_bus = EventBus.publish msg a.now a.event_bus })

-- `slurpee.DeliveryChan <- event`
unfoldable pub send_to_delivery : Event → Action Application (Unit {0})
send_to_delivery event a = (tt, record a { delivery_chan = a.delivery_chan ++ event ∷ [] })

-- `pgtype.UUID{Bytes: uuid.Must(uuid.NewV7()), Valid: true}`
unfoldable pub draw_id : {V : Type 0} → External V → Action Application PgUuid
draw_id ext a = (pg_uuid (ext.new_v7 a.drawn), record a { drawn = suc a.drawn })
