-- ===== src/SubscriptionCache/Current.antt =====
-- When the cache of subscriptions shows the tables.
use mathlib.Core.List.{reverse, reverse-cons}
use slurpee.Prelude.{
  ℕ, ◌≡◌, refl, ap, arith, ◌⊎◌, inl, inr, Bool, true, false, List, [], ◌∷◌, ◌++◌, find, keep_if,
  if◌then◌else◌,
}
use slurpee.Prelude.Action.{DbError, pure, Result, ok, err, other, on_result}
use slurpee.Prelude.Keys.{Bytes, nat_eq, lookup, insert, lookup-insert, ◌==◌}
use slurpee.Model.{PgUuid, Subscriber, Subscription}
use slurpee.Db.{Db, query_idle, query_down, query_up}
use slurpee.Db.Subscribers.{list_subscribers, list_all_subscriptions}
use slurpee.Glob.{subscription_matches}
use slurpee.SubscriptionCache.{
  SubscriptionCache, Cached, by_id, from_db, load, load_all, read_matching, read_subscriber,
  or_missing, get_matching_subscriptions, get_subscriber_by_id,
}

-- What a load would bring.
abbrev pub full : Db → SubscriptionCache
full db = record {
  loaded = true;
  subscribers = by_id [] (reverse db.subscribers);
  subscriptions = db.subscriptions;
}

-- A cache that is loaded holds the tables as they are.
pub record IsCurrent (cached : Cached) : Type 0 where
  pub shown : if cached.0.loaded then cached.0 ≡ full cached.1 else Unit {0}

by_id-append :
    (m : List (ℕ × Subscriber)) (xs : List Subscriber) (s : Subscriber)
    → by_id m (xs ++ s ∷ []) ≡ insert s.id.bytes s (by_id m xs)
unfolding by_id
by_id-append m [] s = refl
by_id-append m (x ∷ xs) s = by_id-append (insert x.id.bytes x m) xs s

-- The map of all subscribers finds a subscriber as the table does.
lookup-by_id :
    (key : ℕ) (xs : List Subscriber)
    → lookup key (by_id [] (reverse xs)) ≡ find (λ s. s.id.bytes == key) xs
unfolding by_id lookup find
lookup-by_id key [] = refl
lookup-by_id key (x ∷ xs) =
    rw (reverse-cons x xs, by_id-append [] (reverse xs) x, lookup-insert x.id.bytes key x)
      (rw (lookup-by_id key xs) refl)

query_subscribers :
    (db : Db) → db.outages ≡ [] → list_subscribers db ≡ (ok (reverse db.subscribers), db)
unfolding list_subscribers
query_subscribers db up = query_idle _ db up

query_subscriptions :
    (db : Db) → db.outages ≡ [] → list_all_subscriptions db ≡ (ok db.subscriptions, db)
unfolding list_all_subscriptions
query_subscriptions db up = query_idle _ db up

load_all-idle :
    (c : SubscriptionCache) (db : Db) → db.outages ≡ [] → load_all (c, db) ≡ (ok tt, (full db, db))
unfolding load_all from_db
load_all-idle c db up = rw (query_subscribers db up, query_subscriptions db up) refl

-- While the database answers, a load leaves the cache showing the tables.
load-current :
    (c : SubscriptionCache) (db : Db)
    → db.outages ≡ []
    → IsCurrent (c, db)
    → load (c, db) ≡ (ok tt, (full db, db))
unfolding load
load-current c db up h = by_flag c.loaded h.shown
  where
    by_flag :
        (b : Bool)
        → (if b then c ≡ full db else Unit {0})
        → (if b then (ok tt, (c, db)) else load_all (c, db)) ≡ (ok tt, (full db, db))
    by_flag true same = rw same refl
    by_flag false t = load_all-idle c db up

pub get_matching_subscriptions-full :
    (c : SubscriptionCache) (db : Db) (subject : Bytes)
    → db.outages ≡ []
    → IsCurrent (c, db)
    → get_matching_subscriptions subject (c, db) ≡ (
      ok (keep_if (λ s. subscription_matches s.subject_pattern subject) db.subscriptions),
      (full db, db),
    )
unfolding get_matching_subscriptions read_matching
get_matching_subscriptions-full c db subject up h = rw (load-current c db up h) refl

-- The cache is invisible to delivery while the database answers and a loaded cache holds the
-- tables: an event's subject gets exactly the subscriptions of the table that its pattern
-- matches, in their order; afterwards the cache is loaded and holds the tables, which are unchanged.
pub get_matching_subscriptions-IsCurrent :
    (c : SubscriptionCache) (db : Db) (subject : Bytes)
    → db.outages ≡ []
    → IsCurrent (c, db)
    → let (answer, after) = get_matching_subscriptions subject (c, db) in
      (answer ≡ ok (keep_if (λ s. subscription_matches s.subject_pattern subject) db.subscriptions))
      × (after.0.loaded ≡ true)
      × (after.1 ≡ db)
      × IsCurrent after
unfolding get_matching_subscriptions read_matching
get_matching_subscriptions-IsCurrent c db subject up h =
    rw (load-current c db up h) (refl, refl, refl, record { shown = refl })

-- Under the same conditions the subscriber behind an id is the one of the table, or missing if the
-- table has none.
pub get_subscriber_by_id-IsCurrent :
    (c : SubscriptionCache) (db : Db) (id : PgUuid)
    → db.outages ≡ []
    → IsCurrent (c, db)
    → let (answer, after) = get_subscriber_by_id id (c, db) in
      (answer ≡ or_missing (find (λ s. s.id.bytes == id.bytes) db.subscribers))
      × (after.1 ≡ db)
      × IsCurrent after
unfolding get_subscriber_by_id read_subscriber
get_subscriber_by_id-IsCurrent c db id up h =
    rw (load-current c db up h, lookup-by_id id.bytes db.subscribers)
      (refl, refl, record { shown = refl })

-- A load from the tables either fails and changes neither, or succeeds.
load_all-cases :
    (c : SubscriptionCache) (db : Db)
    → ((rest : List Bool) × (load_all (c, db) ≡ (err other, (c, record db { outages = rest }))))
      ⊎ ((after : Cached) × (load_all (c, db) ≡ (ok tt, after)))
unfolding load_all from_db list_subscribers list_all_subscriptions
load_all-cases c db = by_outages db.outages refl
  where
    second :
        (os : List Bool) (mid : Db)
        → mid.outages ≡ os
        → ((rest : List Bool) × (list_all_subscriptions mid
              ≡ (err other, record mid { outages = rest })))
          ⊎ ((after : Db) × (list_all_subscriptions mid ≡ (ok mid.subscriptions, after)))
    second [] mid e = inr (mid, query_idle _ mid e)
    second (true ∷ rest) mid e = inl (rest, query_down _ mid rest e)
    second (false ∷ rest) mid e = inr (record mid { outages = rest }, query_up _ mid rest e)

    by_outages :
        (os : List Bool)
        → db.outages ≡ os
        → ((rest : List Bool) × (load_all (c, db) ≡ (err other, (c, record db { outages = rest }))))
          ⊎ ((after : Cached) × (load_all (c, db) ≡ (ok tt, after)))
    by_outages [] e = inr (_, load_all-idle c db e)
    by_outages (true ∷ rest) e = inl (rest, rw (query_down _ db rest e) refl)
    by_outages (false ∷ os) e = elim (second os (record db { outages = os }) refl) [
      | inl (rest, down) ↦ inl (rest, rw (query_up _ db os e, down) refl)
      | inr (after, up) ↦ inr ((full db, after), rw (query_up _ db os e, up) refl)
    ]

-- The lookup behind its load.
abbrev answer_from : Bytes → Result (Unit {0}) × Cached → Result (List Subscription) × Cached
answer_from subject x =
    on_result x.0 (λ e. pure (err e)) (λ _ cached. (ok (read_matching subject cached.0), cached))
      x.1

-- A load that fails leaves nothing behind, whichever of its queries fails: a lookup that reports an
-- error found the cache not loaded and leaves it as it was, so that the next lookup tries again; the
-- error is the database's, and the tables are unchanged.
pub get_matching_subscriptions_failed :
    (c : SubscriptionCache) (db : Db) (subject : Bytes) (e : DbError)
    → (get_matching_subscriptions subject (c, db)).0 ≡ err e
    → let after = (get_matching_subscriptions subject (c, db)).1 in
      (e ≡ other)
      × (c.loaded ≡ false)
      × (after.0 ≡ c)
      × (record (after.1) { outages = db.outages } ≡ db)
unfolding get_matching_subscriptions load
get_matching_subscriptions_failed c db subject e = by_flag c.loaded
  where
    by_load :
        (r : Result (Unit {0}) × Cached)
        → ((rest : List Bool) × (r ≡ (err other, (c, record db { outages = rest }))))
          ⊎ ((after : Cached) × (r ≡ (ok tt, after)))
        → (answer_from subject r).0 ≡ err e
        → (e ≡ other)
          × ((answer_from subject r).1.0 ≡ c)
          × (record ((answer_from subject r).1.1) { outages = db.outages } ≡ db)
    by_load r (inl (rest, down)) h =
        let same = ap (answer_from subject) down in
        (
          ground (arith, h, ap (λ (x : Result (List Subscription) × Cached). x.0) same),
          ap (λ (x : Result (List Subscription) × Cached). x.1.0) same,
          ap (λ (x : Result (List Subscription) × Cached). record (x.1.1) { outages = db.outages })
              same,
        )
    by_load r (inr (after, up)) h = absurd (
        ground (
          arith,
          h,
          ap (λ (x : Result (List Subscription) × Cached). x.0) (ap (answer_from subject) up),
        ))

    by_flag :
        (b : Bool)
        → (answer_from subject (if b then (ok tt, (c, db)) else load_all (c, db))).0 ≡ err e
        → let after = (answer_from subject (if b then (ok tt, (c, db)) else load_all (c, db))).1 in
          (e ≡ other)
          × (b ≡ false)
          × (after.0 ≡ c)
          × (record (after.1) { outages = db.outages } ≡ db)
    by_flag true h = absurd (ground (arith, h))
    by_flag false h =
        let (cause, kept, tables) = by_load (load_all (c, db)) (load_all-cases c db) h in
        (cause, refl, kept, tables)
