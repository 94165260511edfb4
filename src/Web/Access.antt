-- ===== src/Web/Access.antt =====
-- Who gets past the middleware.
use slurpee.Prelude.{
  ℕ, ◌+◌, ◌≡◌, ◌≢◌, ◌∙◌, refl, ap, sym, Bool, true, false, none, some, [], ◌∷◌, is_empty, ltb,
  if◌then◌else◌,
}
use slurpee.Prelude.Keys.{Bytes, bytes_eq, ==_refl}
use slurpee.Sessions
use slurpee.Sessions.{SessionInfo, session_life}
use slurpee.Sessions.Lifetime.{get_session-create_session, get_session-delete_session}
use slurpee.App.{Application}
use slurpee.Web.{
  in_sessions, is_exempt, admitted, to_login, admit_session, session_auth, logged_in, login_reply,
  login_submit_handler, logout_handler,
}

-- The application at a later time.
abbrev pub at_time : ℕ → Application → Application
at_time later a = record a { now = later }

-- A page that needs a session, asked for with a token that is not empty.
session_auth-guarded :
    (a : Application) (path token : Bytes)
    → is_exempt path ≡ false
    → is_empty token ≡ false
    → (session_auth path (some token) a).0
      ≡ admit_session (Sessions.get_session token a.now a.sessions).0
unfolding session_auth in_sessions
session_auth-guarded a path token guarded full = rw (guarded, full) refl

is_empty-false : (s : Bytes) → s ≢ [] → is_empty s ≡ false
is_empty-false [] n = absurd (n refl)
is_empty-false (c ∷ s) n = refl

login_submit_handler-right :
    (a : Application) (secret token : Bytes)
    → is_empty secret ≡ false
    → a.config.admin_secret ≡ secret
    → login_submit_handler secret (some token) a ≡ (
      logged_in token,
      record a { sessions = (Sessions.create_session (some token) a.now a.sessions).1 },
    )
unfolding login_submit_handler in_sessions login_reply Sessions.create_session
login_submit_handler-right a secret token full e = rw (e, full, ==_refl secret) refl

admit_session-if :
    (b : Bool) (info : SessionInfo)
    → admit_session (if b then none else some info) ≡ (if b then to_login else admitted (some info))
unfolding admit_session
admit_session-if true info = refl
admit_session-if false info = refl

-- Logging in with the configured secret opens the pages that need a session, for 24 hours and no
-- longer: the cookie of the answer is admitted with that session up to and including the end of
-- that time, and sent to the login page after it.
pub session_auth-login_submit_handler :
    (a : Application) (path secret token : Bytes) (later : ℕ)
    → secret ≢ []
    → secret ≡ a.config.admin_secret
    → token ≢ []
    → is_exempt path ≡ false
    → let (answer, b) = login_submit_handler secret (some token) a in
      (answer ≡ logged_in token)
      × ((session_auth path (some token) (at_time later b)).0 ≡ (
          if ltb (a.now + session_life) later
          then to_login
          else admitted (some (record { expires_at = a.now + session_life }))))
session_auth-login_submit_handler a path secret token later n e m guarded =
    let opened = login_submit_handler-right a secret token (is_empty-false secret n) (sym e) in
    let b = record a {
      now = later;
      sessions = (Sessions.create_session (some token) a.now a.sessions).1;
    } in
    rw opened (
      refl,
      session_auth-guarded b path token guarded (is_empty-false token m)
          ∙ ap admit_session (get_session-create_session token token a.now later a.sessions)
          ∙ rw (==_refl token) (
              admit_session-if (ltb (a.now + session_life) later)
                (record { expires_at = a.now + session_life })),
    )

-- Logging out closes them: the token is sent to the login page from then on.
pub session_auth-logout_handler :
    (a : Application) (path token : Bytes) (later : ℕ)
    → token ≢ []
    → is_exempt path ≡ false
    → (session_auth path (some token) (at_time later (logout_handler (some token) a).1)).0
      ≡ to_login
unfolding logout_handler in_sessions admit_session
session_auth-logout_handler a path token later m guarded =
    session_auth-guarded (at_time later (logout_handler (some token) a).1) path token guarded
      (is_empty-false token m)
    ∙ ap admit_session (get_session-delete_session token token later a.sessions)
    ∙ rw (==_refl token) refl
