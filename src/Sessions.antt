-- ===== src/Sessions.antt =====
-- app/sessions.go: admin sessions of the web interface, by token.
-- `rand.Read` is the environment's: it hands `create_session` the token, or fails.
-- `GetSession` is two steps, `read_session` and `if_live`; `get_session` is a call that no other comes
-- between.
pub mod Lifetime
use slurpee.Prelude.{ℕ, ◌+◌, ◌*◌, Option, none, some, List, [], ltb, if◌then◌else◌}
use slurpee.Prelude.Keys.{Bytes, bytes_eq, lookup, insert, erase}

pub record SessionInfo : Type 0 where
  pub expires_at : ℕ

pub record SessionStore : Type 0 where
  pub sessions : List (Bytes × SessionInfo)

unfoldable pub new_session_store : SessionStore
new_session_store = record { sessions = [] }

-- 24 * time.Hour
abbrev pub session_life : ℕ
session_life = 24 * 3600 * 1000000000

unfoldable pub create_session : Option Bytes → ℕ → SessionStore → Option Bytes × SessionStore
create_session none now s = (none, s)
create_session (some token) now s = (
  some token,
  record s { sessions = insert token (record { expires_at = now + session_life }) s.sessions },
)

unfoldable pub delete_session : Bytes → SessionStore → SessionStore
delete_session token s = record s { sessions = erase token s.sessions }

-- The part of `GetSession` under the read lock.
unfoldable pub read_session : Bytes → SessionStore → Option SessionInfo
read_session token s = lookup token s.sessions

-- The part of `GetSession` behind it, on the store of that time, which deletes under the write lock.
unfoldable pub if_live :
    Option SessionInfo → Bytes → ℕ → SessionStore → Option SessionInfo × SessionStore
unfolding delete_session
if_live none token now s = (none, s)
if_live (some info) token now s =
    if ltb info.expires_at now then (none, delete_session token s) else (some info, s)

unfoldable pub get_session : Bytes → ℕ → SessionStore → Option SessionInfo × SessionStore
unfolding if_live read_session
get_session token now s = if_live (read_session token s) token now s
