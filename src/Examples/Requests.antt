-- ===== src/Examples/Requests.antt =====
-- The interfaces: requests of publishers and of administrators, and the log's properties.
use mathlib.Core.Option
use slurpee.Prelude.{
  ◌+◌, ◌≡◌, refl, false, none, some, [], ◌∷◌, not, find, keep_if, contains_if, ltb, if◌then◌else◌,
  arith,
}
use slurpee.Prelude.Action.{on_option}
use slurpee.Prelude.Keys.{bytes_eq, bytes_beq, lookup, codes, ◌==◌}
use slurpee.Model.{pg_uuid, uuid_eq, uuid_beq, LogConfig}
use slurpee.SubscriptionCache
use slurpee.Sessions.{session_life}
use slurpee.LogProperties.{extract_configured, batch_extract_log_properties}
use slurpee.LogProperties.Extraction.{
  entries, extract_each, lookup-extract_configured, batch_extract_log_properties-each,
}
use slurpee.Api.{replied, refused}
use slurpee.Api.Events.{CreateEventRequest, create_event_handler}
use slurpee.Api.Events.Storing.{Outcome}
use slurpee.Api.Events.Acceptance.{Permitted, create_event_handler-Outcome}
use slurpee.Api.Subscribers.Directory.{delete_by_id}
use slurpee.Api.Subscribers.Deletion.{attempted, delete_by_id_outcome}
use slurpee.Web.{
  is_exempt, has_prefix, to_login, admitted, logged_in, session_auth, login_submit_handler,
  logout_handler,
}
use slurpee.Web.Access.{at_time, session_auth-login_submit_handler, session_auth-logout_handler}
use slurpee.Examples.{sample_external, sample_app, sample_db, sample_event, sample_subscriber}

abbrev sample_log_config : LogConfig
sample_log_config = record {
  id = pg_uuid 4;
  subject = codes "order.paid";
  log_properties = codes "c" ∷ [];
}

lookup-extract_configured_example :
    lookup
      (codes "c")
      (entries (extract_configured sample_external (some sample_log_config) (codes "{cdab")))
    ≡ (if contains_if (λ p. p == codes "c") sample_log_config.log_properties
        then Option.map
            (λ v. on_option (sample_external.as_string v) (sample_external.marshal v) (λ s. s))
            (lookup (codes "c") ((codes "c", codes "d") ∷ (codes "a", codes "b") ∷ []))
        else none)
lookup-extract_configured_example =
    lookup-extract_configured sample_external sample_log_config (codes "{cdab")
      ((codes "c", codes "d") ∷ (codes "a", codes "b") ∷ []) (codes "c") refl

batch_extract_log_properties-each_example :
    batch_extract_log_properties sample_external (sample_event ∷ sample_event ∷ []) sample_app
    ≡ extract_each sample_external (sample_event ∷ sample_event ∷ []) sample_app
batch_extract_log_properties-each_example =
    batch_extract_log_properties-each sample_external (sample_event ∷ sample_event ∷ []) sample_app

abbrev sample_request : CreateEventRequest
sample_request = record {
  id = none;
  subject = codes "order.paid";
  content = codes "{ab";
  trace_id = none;
  timestamp = none;
}

create_event_handler-Outcome_example :
    Outcome sample_external
      (Permitted sample_external (7 ∷ []) (codes "hunter2") sample_app)
      sample_app
      (create_event_handler sample_external
        (7 ∷ [])
        (codes "hunter2")
        (some sample_request)
        sample_app)
create_event_handler-Outcome_example =
    create_event_handler-Outcome sample_external (7 ∷ []) (codes "hunter2") (some sample_request)
      sample_app

known_subscriber : find (λ s. s.id == pg_uuid 3) sample_db.subscribers ≡ some sample_subscriber
unfolding find uuid_beq
known_subscriber = refl

delete_by_id_outcome_example :
    let (answer, b) = delete_by_id sample_external (pg_uuid 3) sample_app in
    (b.db.subscriptions ≡ keep_if (λ s. not (s.subscriber_id == pg_uuid 3)) sample_db.subscriptions)
    × (if attempted (pg_uuid 3) sample_db
        then (answer ≡ refused 500 (codes "Failed to delete subscriber"))
          × (b.db.subscribers ≡ sample_db.subscribers)
          × (b.subscription_cache ≡ sample_app.subscription_cache)
        else (answer ≡ replied 204 tt)
          × (b.db.subscribers ≡ keep_if (λ s. not (s.id == pg_uuid 3)) sample_db.subscribers)
          × (b.subscription_cache ≡ SubscriptionCache.flush sample_app.subscription_cache))
delete_by_id_outcome_example =
    delete_by_id_outcome sample_external (pg_uuid 3) sample_app sample_subscriber refl
      known_subscriber

guarded : is_exempt (codes "/events") ≡ false
unfolding is_exempt has_prefix bytes_beq
guarded = refl

session_auth-login_submit_handler_example :
    let (answer, b) = login_submit_handler (codes "admin") (some (codes "t")) sample_app in
    (answer ≡ logged_in (codes "t"))
    × ((session_auth (codes "/events") (some (codes "t")) (at_time 200 b)).0 ≡ (
        if ltb (100 + session_life) 200
        then to_login
        else admitted (some (record { expires_at = 100 + session_life }))))
session_auth-login_submit_handler_example =
    session_auth-login_submit_handler sample_app (codes "/events") (codes "admin") (codes "t") 200
      (ground arith) refl (ground arith) guarded

session_auth-logout_handler_example :
    (session_auth
      (codes "/events")
      (some (codes "t"))
      (at_time 200 (logout_handler (some (codes "t")) sample_app).1)).0
    ≡ to_login
session_auth-logout_handler_example =
    session_auth-logout_handler sample_app (codes "/events") (codes "t") 200 (ground arith) guarded
