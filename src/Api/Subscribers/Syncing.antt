-- ===== src/Api/Subscribers/Syncing.antt =====
-- One round of the loop over the requested subscriptions, while the database answers.
use slurpee.Prelude.{
  ℕ, suc, ◌≤◌, ◌≡◌, refl, ap, ◌∙◌, arith, Bool, true, false, ◌&&◌, inl, inr, Bool-cases, Option,
  none, some, List, [], ◌∷◌, map,
}
use slurpee.Prelude.Action.{on_option}
use slurpee.Prelude.Int.{ℤ}
use slurpee.Prelude.Keys.{Bytes, codes, ◌==◌, ==_iff, ==_refl, bytes_eq, lookup}
use slurpee.Model.{PgUuid, pg_uuid, uuid_eq, Subscription}
use slurpee.Db.Subscribers.{CreateSubscriptionParams, new_subscription, update_subscription}
use slurpee.External.{External}
use slurpee.App.{Application, in_db, draw_id}
use slurpee.Api.{Reply, replied}
use slurpee.Api.Subscribers.{SubscriptionRequest, filter_of, or_500, create_new, sync_one}
use slurpee.Api.Subscribers.Entries.{
  has_key, has_id, entry, update-IsUnique, insert-IsUnique, contains_if-update_if, contains_if-++,
}
use slurpee.Api.Subscribers.Changes.{
  update_same, update_other, find-updated, insert_same, insert_other,
}
use slurpee.Api.Subscribers.Rows.{IsReady, create_row, overwrite, overwrite-KeepsKey, update_row}

-- What a subscription says apart from its pattern, and what a request wants it to say.
abbrev pub saying : Subscription → Bytes × Option ℤ
saying s = (s.filter, s.max_retries)

abbrev pub wanted : SubscriptionRequest → Bytes × Option ℤ
wanted r = (filter_of r.filter, r.max_retries)

-- `existing` knows the entry of a pattern.
abbrev pub Knows : Option Subscription → List Subscription → Type 0
Knows none rows = rows ≡ []
Knows (some old) rows = rows ≡ old ∷ []

module _ {Value : Type 0} (ext : External Value) (owner : PgUuid) where
  -- A round that answers with a row and changes one entry.
  pub record Synced (a : Application) (p : Bytes) (content : Bytes × Option ℤ)
      (result : Reply Subscription × Application) : Type 0 where
    pub row : Subscription
    pub answers : result.0 ≡ replied 200 row
    pub ready : IsReady ext owner result.1
    pub same : map saying (entry owner p result.1.db.subscriptions) ≡ content ∷ []
    pub others :
        (q : Bytes)
        → (p == q) ≡ false
        → entry owner q result.1.db.subscriptions ≡ entry owner q a.db.subscriptions

  update-Synced :
      (a : Application) (p : Bytes) (old : Subscription) (filter : Bytes) (max_retries : Option ℤ)
      → IsReady ext owner a
      → entry owner p a.db.subscriptions ≡ old ∷ []
      → Synced a p
          (filter, max_retries)
          (or_500
            (codes "Failed to update subscription")
            (in_db (update_subscription old.id filter max_retries))
            a)
  unfolding or_500
  update-Synced a p old filter max_retries h e =
      let f = overwrite ext owner filter max_retries a.db.now in
      let keeps = overwrite-KeepsKey ext owner filter max_retries a.db.now in
      let rows = a.db.subscriptions in
      rw
        (
          update_row ext owner a old.id filter max_retries h.up,
          find-updated owner p old rows h.unique e f keeps,
        )
        (record {
          row = f old;
          answers = refl;
          ready = record {
            up = h.up;
            known = h.known;
            unique = update-IsUnique (has_id old.id) f rows keeps.id h.unique;
            fresh = λ k late.
                contains_if-update_if (pg_uuid (ext.new_v7 k)) (has_id old.id) f rows keeps.id
                ∙ h.fresh k late;
          };
          same = ap (map saying) (update_same owner p old rows h.unique e f keeps);
          others = λ q apart. update_other owner p old rows h.unique e f q keeps apart;
        })

  module _ (distinct : (j k : ℕ) → ext.new_v7 j ≡ ext.new_v7 k → j ≡ k) where
    another_id : (j k : ℕ) → suc j ≤ k → (pg_uuid (ext.new_v7 j) == pg_uuid (ext.new_v7 k)) ≡ false
    another_id j k late = elim (Bool-cases (pg_uuid (ext.new_v7 j) == pg_uuid (ext.new_v7 k))) [
      | inl same ↦ absurd (
          omega (
            arith,
            distinct j k (
                ap (λ (u : PgUuid). u.bytes)
                  ((==_iff (pg_uuid (ext.new_v7 j)) (pg_uuid (ext.new_v7 k))).0 same)),
            late,
          ))
      | inr apart ↦ apart
    ]

    own_key :
        (p : Bytes) (s : Subscription)
        → s.subscriber_id ≡ owner
        → s.subject_pattern ≡ p
        → has_key owner p s ≡ true
    own_key p s mine this = rw (mine, this, ==_refl owner, ==_refl p) refl

    foreign_key :
        (p q : Bytes) (s : Subscription)
        → s.subject_pattern ≡ p
        → (p == q) ≡ false
        → has_key owner q s ≡ false
    foreign_key p q s this apart = rw (this, apart) (none_passes (s.subscriber_id == owner))
      where
        none_passes : (b : Bool) → (b && false) ≡ false
        none_passes true = refl
        none_passes false = refl

    create-Synced :
        (a : Application) (r : SubscriptionRequest)
        → IsReady ext owner a
        → entry owner r.subject_pattern a.db.subscriptions ≡ []
        → Synced a r.subject_pattern (wanted r) (create_new ext owner r a)
    unfolding create_new or_500 draw_id
    create-Synced a r h e =
        let p : CreateSubscriptionParams = record {
          id = pg_uuid (ext.new_v7 a.drawn);
          subscriber_id = owner;
          subject_pattern = r.subject_pattern;
          filter = filter_of r.filter;
          max_retries = r.max_retries;
        } in
        let new = new_subscription p a.db.now in
        let rows = a.db.subscriptions in
        let unused = h.fresh a.drawn (omega arith) in
        rw (create_row ext owner (record a { drawn = suc a.drawn }) p h.up unused h.known) (record {
          row = new;
          answers = refl;
          ready = record {
            up = h.up;
            known = h.known;
            unique = insert-IsUnique new rows unused h.unique;
            fresh = λ k late.
                contains_if-++ (pg_uuid (ext.new_v7 k)) new rows (h.fresh k (omega (arith, late)))
                  (another_id a.drawn k late);
          };
          same = ap (map saying) (
              insert_same owner r.subject_pattern new rows e
                (own_key r.subject_pattern new refl refl));
          others = λ q apart.
              insert_other owner q new rows (foreign_key r.subject_pattern q new refl apart);
        })

    pub sync_one-Synced :
        (a : Application) (existing : List (Bytes × Subscription)) (r : SubscriptionRequest)
        → IsReady ext owner a
        → Knows
            (lookup r.subject_pattern existing)
            (entry owner r.subject_pattern a.db.subscriptions)
        → Synced a r.subject_pattern (wanted r) (sync_one ext owner existing r a)
    unfolding sync_one
    sync_one-Synced a existing r h e = by_entry (lookup r.subject_pattern existing) e
      where
        by_entry :
            (o : Option Subscription)
            → Knows o (entry owner r.subject_pattern a.db.subscriptions)
            → Synced a r.subject_pattern (wanted r) (
                on_option o
                  (create_new ext owner r)
                  (λ old.
                    or_500
                      (codes "Failed to update subscription")
                      (in_db (update_subscription old.id (filter_of r.filter) r.max_retries)))
                  a)
        by_entry none e = create-Synced a r h e
        by_entry (some old) e =
            update-Synced a r.subject_pattern old (filter_of r.filter) r.max_retries h e
