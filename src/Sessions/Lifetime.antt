-- ===== src/Sessions/Lifetime.antt =====
-- How long a session is served, and that no call touches another session.
use slurpee.Prelude.{ℕ, ◌+◌, ◌≡◌, none, some, arith, ltb, if◌then◌else◌}
use slurpee.Prelude.Keys.{Bytes, bytes_eq, bytes_beq_iff, ◌==◌, lookup-insert, lookup-erase}
use slurpee.Sessions.{
  SessionStore, session_life, create_session, read_session, if_live, get_session, delete_session,
}

-- A session is served from its creation up to and including the end of its 24 hours, and never
-- later; creating it changes the answer for no other token.
pub get_session-create_session :
    (token other : Bytes) (now later : ℕ) (s : SessionStore)
    → (get_session other later (create_session (some token) now s).1).0 ≡ (
        if token == other
        then (if ltb (now + session_life) later
            then none
            else some (record { expires_at = now + session_life }))
        else (get_session other later s).0)
unfolding get_session create_session
get_session-create_session token other now later s =
    simp lookup-insert (ground (arith, bytes_beq_iff token other))

-- What a deletion leaves for later calls, which no other comes between.
pub get_session-delete_session :
    (token other : Bytes) (later : ℕ) (s : SessionStore)
    → (get_session other later (delete_session token s)).0
      ≡ (if token == other then none else (get_session other later s).0)
unfolding get_session delete_session read_session if_live
get_session-delete_session token other later s =
    simp lookup-erase (ground (arith, bytes_beq_iff token other))
