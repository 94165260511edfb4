-- ===== src/Web.antt =====
-- The admin sessions of the web interface: middleware/session-auth.go and views/login.go.
-- A request is its path and the value of its `slurpee_session` cookie, if it has one.
pub mod Access
use slurpee.Prelude.{
  ℕ, Bool, true, false, not, ◌||◌, ◌&&◌, Option, none, some, List, [], ◌∷◌, is_empty, if◌then◌else◌,
}
use slurpee.Prelude.Action.{Action, pure, ◌>>=◌, ◌>>◌, on_option}
use slurpee.Prelude.Keys.{Bytes, bytes_eq, nat_eq, codes, ◌==◌}
use slurpee.Sessions
use slurpee.Sessions.{SessionInfo, SessionStore}
use slurpee.App.{Application}

-- strings.HasPrefix
unfoldable pub has_prefix : Bytes → Bytes → Bool
has_prefix [] s = true
has_prefix (c ∷ p) [] = false
has_prefix (c ∷ p) (x ∷ s) = c == x && has_prefix p s

unfoldable pub is_exempt : Bytes → Bool
unfolding has_prefix
is_exempt path =
    path == codes "/login"
    || has_prefix (codes "/static/") path
    || path == codes "/version"
    || has_prefix (codes "/api/") path

unfoldable pub in_sessions : {A : Type 0} → Action SessionStore A → Action Application A
in_sessions m a = let (x, store) = m a.sessions in (x, record a { sessions = store })

pub data Admission : Type 0 where
  -- The next handler runs, with the session if there is one.
  admitted : Option SessionInfo → Admission
  to_login : Admission

unfoldable pub admit_session : Option SessionInfo → Admission
admit_session none = to_login
admit_session (some info) = admitted (some info)

-- `SessionAuthMiddleware`
unfoldable pub session_auth : Bytes → Option Bytes → Action Application Admission
unfolding is_exempt in_sessions admit_session
session_auth path cookie a =
    let now = a.now in
    (if is_exempt path
        then pure (admitted none)
        else on_option cookie (pure to_login) λ token. if is_empty token then pure to_login else do
          session ← in_sessions (Sessions.get_session token now)
          pure (admit_session session))
      a

pub data LoginReply : Type 0 where
  -- The form again, with an error.
  login_page : Bytes → LoginReply
  -- The cookie's value.
  logged_in : Bytes → LoginReply

unfoldable pub login_reply : Option Bytes → LoginReply
login_reply none = login_page (codes "Internal error")
login_reply (some token) = logged_in token

-- `loginSubmitHandler`; `drawn` is what `rand.Read` gives, if it does not fail.
unfoldable pub login_submit_handler : Bytes → Option Bytes → Action Application LoginReply
unfolding in_sessions login_reply
login_submit_handler secret drawn a =
    let now = a.now in
    (if is_empty secret
        then pure (login_page (codes "Secret is required"))
        else if is_empty a.config.admin_secret || not (secret == a.config.admin_secret)
        then pure (login_page (codes "Invalid secret"))
        else do token ← in_sessions (Sessions.create_session drawn now); pure (login_reply token))
      a

-- `logoutHandler`
unfoldable pub logout_handler : Option Bytes → Action Application (Unit {0})
unfolding in_sessions
logout_handler none = pure tt
logout_handler (some token) = in_sessions (λ s. (tt, Sessions.delete_session token s))
