-- ===== src/Api/Events/Acceptance.antt =====
-- What an accepted event, and a refused one, leave behind.
use slurpee.Prelude.{
  ℕ, ◌≡◌, refl, Bool, true, false, not, Option, none, some, List, is_empty, if◌then◌else◌,
}
use slurpee.Prelude.Action.{pure, on_option}
use slurpee.Prelude.Keys.{Bytes, codes, bytes_eq}
use slurpee.Model.{uuid_eq, Event, ApiSecret}
use slurpee.External.{External}
use slurpee.Glob.{check_send_scope}
use slurpee.App.{Application}
use slurpee.Secrets.{Validation, valid, secret_not_found, invalid_secret, validate_secret_by_id}
use slurpee.Api.{refused, Handler}
use slurpee.Api.Events.{
  CreateEventRequest, EventResponse, if_valid, authenticated, create_with_id, create_event,
  create_event_handler,
}
use slurpee.Api.Events.Effects.{IsUntouched, validate-IsUntouched}
use slurpee.Api.Events.Storing.{Outcome, create_with_id-Outcome}

module _ {Value : Type 0} (ext : External Value) where
  -- What the handler grants: the event's subject is in the scope of a secret that the
  -- credentials of the request validated.
  abbrev pub Permitted : Bytes → Bytes → Application → Event → Type 0
  Permitted secret_id secret a event =
      (id : ℕ) × (s : ApiSecret) × (ext.uuid_parse secret_id ≡ some id)
      × ((validate_secret_by_id ext id secret a).0 ≡ valid s)
      × (check_send_scope s.subject_pattern event.subject ≡ true)

  create_event-Outcome :
      (secret_id secret : Bytes) (a b : Application) (id : ℕ) (s : ApiSecret)
      (req : CreateEventRequest)
      → IsUntouched a b
      → ext.uuid_parse secret_id ≡ some id
      → (validate_secret_by_id ext id secret a).0 ≡ valid s
      → Outcome ext (Permitted secret_id secret a) a (create_event ext req s b)
  unfolding create_event
  create_event-Outcome secret_id secret a b id s req u parsed good =
      by_tests (is_empty req.subject) (check_send_scope s.subject_pattern req.subject)
        (is_empty req.content) (ext.unmarshal_object req.content) refl
    where
      by_tests :
          (no_subject in_scope no_data : Bool) (obj : Option (List (Bytes × Value)))
          → check_send_scope s.subject_pattern req.subject ≡ in_scope
          → Outcome ext (Permitted secret_id secret a) a (
              (if no_subject
                  then pure (refused 400 (codes "subject is required"))
                  else if not in_scope
                  then pure (refused 403 (codes "Subject not permitted by API secret scope"))
                  else if no_data
                  then pure (refused 400 (codes "data is required"))
                  else on_option obj
                      (pure (refused 400 (codes "data must be a valid JSON object")))
                      (λ o. create_with_id ext req))
                b)
      by_tests true in_scope no_data obj e = u
      by_tests false false no_data obj e = u
      by_tests false true true obj e = u
      by_tests false true false none e = u
      by_tests false true false (some o) e =
          create_with_id-Outcome ext (Permitted secret_id secret a) a req b u
            λ event same. (id, s, parsed, good, rw same e)

  -- `POST /events` is all or nothing: a request that is refused, for whatever reason, leaves the
  -- events and the dispatcher's channel as they were; one that is answered with 201 has added one
  -- pending event at the end of both, the one that the answer shows, and its subject is in the
  -- scope of the secret that the request's id and plaintext validated.
  pub create_event_handler-Outcome :
      (secret_id secret : Bytes) (request : Option CreateEventRequest) (a : Application)
      → Outcome ext
          (Permitted secret_id secret a)
          a
          (create_event_handler ext secret_id secret request a)
  unfolding create_event_handler authenticated if_valid
  create_event_handler-Outcome secret_id secret request a =
      by_id (is_empty secret_id) (ext.uuid_parse secret_id) (is_empty secret) refl
    where
      go : ApiSecret → Handler EventResponse
      go matched =
          on_option request (pure (refused 400 (codes "Invalid request body")))
            (λ req. create_event ext req matched)

      by_request :
          (o : Option CreateEventRequest) (id : ℕ) (s : ApiSecret) (b : Application)
          → IsUntouched a b
          → ext.uuid_parse secret_id ≡ some id
          → (validate_secret_by_id ext id secret a).0 ≡ valid s
          → Outcome ext (Permitted secret_id secret a) a (
              on_option o
                (pure (refused 400 (codes "Invalid request body")))
                (λ req. create_event ext req s)
                b)
      by_request none id s b u parsed good = u
      by_request (some req) id s b u parsed good =
          create_event-Outcome secret_id secret a b id s req u parsed good

      by_answer :
          (v : Validation) (id : ℕ) (b : Application)
          → IsUntouched a b
          → ext.uuid_parse secret_id ≡ some id
          → (validate_secret_by_id ext id secret a).0 ≡ v
          → Outcome ext (Permitted secret_id secret a) a (if_valid ext v go b)
      by_answer (valid s) id b u parsed good = by_request request id s b u parsed good
      by_answer secret_not_found id b u parsed good = u
      by_answer invalid_secret id b u parsed good = u

      by_id :
          (no_id : Bool) (o : Option ℕ) (no_secret : Bool)
          → ext.uuid_parse secret_id ≡ o
          → Outcome ext (Permitted secret_id secret a) a (
              (if no_id
                  then pure (refused 401 (codes "Missing X-Slurpee-Secret-ID header"))
                  else on_option o
                      (pure (refused 400 (codes "X-Slurpee-Secret-ID must be a valid UUID")))
                      λ id.
                        if no_secret
                        then pure (refused 401 (codes "Missing or invalid API secret"))
                        else λ c.
                            let (answer, d) = validate_secret_by_id ext id secret c in
                            if_valid ext answer go d)
                a)
      by_id true o no_secret e = record { same_events = refl; same_chan = refl }
      by_id false none no_secret e = record { same_events = refl; same_chan = refl }
      by_id false (some id) true e = record { same_events = refl; same_chan = refl }
      by_id false (some id) false e = by_answer _ id _ (validate-IsUntouched ext id secret a) e refl
