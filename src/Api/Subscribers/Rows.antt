-- ===== src/Api/Subscribers/Rows.antt =====
-- The queries that write a subscription, while the database answers.
use slurpee.Prelude.{
  ℕ, ◌≤◌, ◌≡◌, refl, ap, ◌∙◌, true, false, Option, List, [], ◌∷◌, ◌++◌, find, contains_if,
  update_if,
}
use slurpee.Prelude.Action.{Result, ok}
use slurpee.Prelude.Int.{ℤ}
use slurpee.Prelude.Keys.{Bytes, ◌==◌, bytes_eq}
use slurpee.Model.{PgUuid, pg_uuid, uuid_eq, Subscription}
use slurpee.Db.{Db, query_idle, one_row}
use slurpee.Db.Subscribers.{
  CreateSubscriptionParams, new_subscription, create_subscription, update_subscription,
}
use slurpee.External.{External}
use slurpee.App.{Application, in_db}
use slurpee.Api.Subscribers.Entries.{has_id, IsUnique}
use slurpee.Api.Subscribers.Changes.{KeepsKey}

abbrev pub with_rows : List Subscription → Application → Application
with_rows rows a = record a { db = record (a.db) { subscriptions = rows } }

module _ {Value : Type 0} (ext : External Value) (owner : PgUuid) where
  -- The database answers, the subscriber exists, ids are unique, and those to be drawn are new.
  pub record IsReady (a : Application) : Type 0 where
    pub up : a.db.outages ≡ []
    pub known : contains_if (λ s. s.id == owner) a.db.subscribers ≡ true
    pub unique : IsUnique a.db.subscriptions
    pub fresh :
        (k : ℕ)
        → a.drawn ≤ k
        → contains_if (has_id (pg_uuid (ext.new_v7 k))) a.db.subscriptions ≡ false

  pub create_row :
      (a : Application) (p : CreateSubscriptionParams)
      → a.db.outages ≡ []
      → contains_if (has_id p.id) a.db.subscriptions ≡ false
      → contains_if (λ s. s.id == p.subscriber_id) a.db.subscribers ≡ true
      → in_db (create_subscription p) a ≡ (
        ok (new_subscription p a.db.now),
        with_rows (a.db.subscriptions ++ new_subscription p a.db.now ∷ []) a,
      )
  unfolding create_subscription in_db
  create_row a p up new known =
      ap (λ (r : Result Subscription × Db). (r.0, record a { db = r.1 }))
        (query_idle _ a.db up ∙ rw (new, known) refl)

  abbrev pub overwrite : Bytes → Option ℤ → ℕ → Subscription → Subscription
  overwrite filter max_retries now s = record s {
    filter = filter;
    max_retries = max_retries;
    updated_at = now;
  }

  pub overwrite-KeepsKey :
      (filter : Bytes) (max_retries : Option ℤ) (now : ℕ)
      → KeepsKey (overwrite filter max_retries now)
  overwrite-KeepsKey filter max_retries now = record {
    id = λ s. refl;
    owner = λ s. refl;
    pattern = λ s. refl;
  }

  pub update_row :
      (a : Application) (id : PgUuid) (filter : Bytes) (max_retries : Option ℤ)
      → a.db.outages ≡ []
      → let rows =
          update_if (has_id id) (overwrite filter max_retries a.db.now) a.db.subscriptions in
        in_db (update_subscription id filter max_retries) a
        ≡ (one_row (find (has_id id) rows), with_rows rows a)
  unfolding update_subscription in_db
  update_row a id filter max_retries up =
      ap (λ (r : Result Subscription × Db). (r.0, record a { db = r.1 })) (query_idle _ a.db up)
