-- ===== src/Db.antt =====
-- The database behind `db.Querier`: its tables (schema/), and a query that may fail.
-- Each function of the children is one of the queries of queries/*.sql, which sqlc turned into the
-- methods of db/*.sql.go. Rows stand in the order of their creation, which is what
-- `ORDER BY created_at` returns; JSONB columns hold the text that was written to them.
pub mod Events
pub mod Subscribers
pub mod Secrets
pub mod Listings
pub mod Pages
pub mod Searches
use mathlib.Core.List.{tail-eq_of_cons-eq}
use slurpee.Prelude.{ℕ, ◌≡◌, refl, ap, arith, Bool, true, false, Option, none, some, List, [], ◌∷◌}
use slurpee.Prelude.Action.{Action, Result, ok, err, no_rows, other}
use slurpee.Model.{PgUuid, Event, Subscriber, Subscription, DeliveryAttempt, ApiSecret, LogConfig}

pub record Db : Type 0 where
  pub events : List Event
  pub subscribers : List Subscriber
  pub subscriptions : List Subscription
  pub delivery_attempts : List DeliveryAttempt
  pub api_secrets : List ApiSecret
  pub api_secret_subscribers : List (PgUuid × PgUuid)
  pub log_configs : List LogConfig
  -- The database's `now()`.
  pub now : ℕ
  -- What the environment decides of the next queries: `true` fails one. None left means no failure.
  pub outages : List Bool

abbrev pub query_with : {A : Type 0} → List Bool → Action Db (Result A) → Action Db (Result A)
query_with [] op db = op db
query_with (true ∷ rest) op db = (err other, record db { outages = rest })
query_with (false ∷ rest) op db = op (record db { outages = rest })

-- A query fails as a whole and changes nothing, or has its effect.
abbrev pub query : {A : Type 0} → Action Db (Result A) → Action Db (Result A)
query op db = query_with db.outages op db

-- A `:one` query.
abbrev pub one_row : {A : Type 0} → Option A → Result A
one_row none = err no_rows
one_row (some a) = ok a

pub query_idle :
    {A : Type 0} (op : Action Db (Result A)) (db : Db) → db.outages ≡ [] → query op db ≡ op db
query_idle {A} op db h = idle db.outages h
  where
    idle : (os : List Bool) → os ≡ [] → query_with os op db ≡ op db
    idle [] e = refl
    idle (o ∷ os) e = cc

pub query_down :
    {A : Type 0} (op : Action Db (Result A)) (db : Db) (rest : List Bool)
    → db.outages ≡ true ∷ rest
    → query op db ≡ (err other, record db { outages = rest })
query_down {A} op db rest h = down db.outages h
  where
    down :
        (os : List Bool)
        → os ≡ true ∷ rest
        → query_with os op db ≡ (err other, record db { outages = rest })
    down [] e = cc
    down (true ∷ os) e = ground arith
    down (false ∷ os) e = cc

pub query_up :
    {A : Type 0} (op : Action Db (Result A)) (db : Db) (rest : List Bool)
    → db.outages ≡ false ∷ rest
    → query op db ≡ op (record db { outages = rest })
query_up {A} op db rest h = up db.outages h
  where
    up :
        (os : List Bool)
        → os ≡ false ∷ rest
        → query_with os op db ≡ op (record db { outages = rest })
    up [] e = cc
    up (true ∷ os) e = ground arith
    up (false ∷ os) e = ap (λ l. op (record db { outages = l })) (tail-eq_of_cons-eq e)
