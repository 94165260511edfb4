-- ===== src/Lib.antt =====
-- Verification library of slurpee, the event broker of this repository: publishers post events, and
-- slurpee delivers each to the endpoints of the subscribers whose subscriptions match its subject
-- and its data, with retries.
--
-- The parts, and where each is modelled:
--   Prelude             Shared helpers: Boolean tests, lists, signed integers, keys and maps, actions.
--   Model, Db, External The rows (db/models.go), the queries of queries/*.sql behind db/*.sql.go as
--                       functions on tables, and the calls of encoding/json, uuid and bcrypt, which
--                       are parameters.
--   Cache               app/cache.go: `Cache`, with Get, Set and Flush as `get`, `set` and `flush`.
--   SubscriptionCache   app/subscription_cache.go; Current says when it shows the tables.
--   App                 app/application.go: the state that the parts share.
--   Glob                The patterns of app/secrets.go; Relation is their meaning apart from the code.
--   Secrets             `ValidateSecretByID` and the scopes of app/secrets.go, and the deletion of
--                       a secret in views/secrets.go, which flushes the cache; Generation is
--                       `GenerateSecret`.
--   EventBus            app/eventbus.go: channels as bounded buffers. Order interleaves the two steps
--                       of each publisher; Buffers has its lemmas.
--   Sessions, Web       app/sessions.go, middleware/session-auth.go and views/login.go.
--   LogProperties       app/log_properties.go.
--   Delivery            app/delivery.go: State (tasks, trackers, registry), Selection and Dispatch
--                       (`dispatchEvent`, `resumePartialEvent`), Attempt (`deliverToSubscriber`),
--                       Worker (`processDeliveryTask`, `finalizeEvent`), Resume, Backoff, Filter,
--                       and Steps, which interleaves the dispatcher, workers and timers. The proofs:
--                       Balance and Inflight (the counter of tasks in flight), Termination, Choice,
--                       Start, Recorded, Outcome. Semaphores is `getSemaphore` and the wait for
--                       a place of a subscriber, with its proofs in Soundness, Arrival, Bound and
--                       Progress.
--   Api                 api/events.go and api/subscribers.go: the handlers (Subscribers.Directory
--                       lists and deletes subscribers); Events.Effects, Events.Storing,
--                       Events.Acceptance, Subscribers.Deletion and Subscribers.Registration
--                       have the proofs. Registration rests on Entries, Changes and Rows (the rows of one
--                       pattern, and what a query makes of them), Syncing and Requests (the loop
--                       over the requests), Patterns, Answers and Removals.
--   Views               views/logging.go, views/secrets.go, views/subscribers.go and views/events.go:
--                       the handlers of the web pages, from a form to the values that a template
--                       is given. The proofs: Logging.RoundTrip and Logging.Effects,
--                       Secrets.Effects and Secrets.Validity, Events.Selection, Events.Paging
--                       and Events.Missed.
--   Examples            Test data, tests, and the theorems at concrete inputs.
--
-- A handler of api/ validates the secret (Secrets), stores the event (Db), publishes it (EventBus)
-- and sends it to the dispatcher's channel (App). The dispatcher asks the subscription cache for the
-- matching subscriptions and queues a task for each subscriber; a worker makes the request, and
-- queues a timer for a retry or records the result in the tracker of the event, which the last
-- result finalises.
--
-- The pages of views/ change the same tables as the interface, and flush the caches of app/ behind
-- their changes; the stream of events subscribes to the event bus.
--
-- Conventions. Code that changes state is an `Action`, from a state to a value and a state; a Go
-- error is a `Result`. A query takes from `outages` whether it fails. A map is an association list,
-- and where Go iterates one, the order is a parameter. What runs under one lock is one step; a function
-- that takes a lock twice, or draws an id before it, has a definition for each part, and its own
-- definition is a call that no other comes between (`EventBus.publish`, `get_session`,
-- `get_matching_subscriptions`). A
-- timestamp is a count of nanoseconds, the clock stands still within a call, and counters wrap where
-- Go's do. What PostgreSQL, bcrypt and Go's packages for JSON, URLs and dates do is a field of
-- `Engine`, `External` or `Platform`. Recursion is on lists, but for the trimming of texts, whose fuel
-- is the length of the text, since each round strips at least a byte (Prelude.Trimming);
-- Delivery.Termination bounds the runs of workers and timers.
--
-- Not modelled: the capacity of the task queue, on which a sender waits; the rounding of timestamps
-- to microseconds by PostgreSQL; the text of logs; the rendering of pages and the formatting of
-- times; random bytes and password hashing; the start of the process, its connection to the
-- database, and the command line client slurpit, which only calls the interface.
pub mod Api
pub mod App
pub mod Cache
pub mod Db
pub mod Delivery
pub mod EventBus
pub mod Examples
pub mod External
pub mod Glob
pub mod LogProperties
pub mod Model
pub mod Prelude
pub mod Secrets
pub mod Sessions
pub mod SubscriptionCache
pub mod Views
pub mod Web
