-- ===== src/Server/Traffic/Masked.antt =====
-- SESSION of commander/common/session.go.
use fleare.Prelude.{◌≡◌, refl, Bool-cases, inl, inr, List, [], ◌∷◌}
use fleare.Prelude.Bytes.{Bytes, same}
use fleare.Prelude.Dict.{lookup}
use fleare.Server.Sessions.{Session, Sessions}
use fleare.Shard.{Env}
use fleare.Server.Traffic.{Outside, session_add, reply_session}

-- The session with another password of its user.
abbrev pub with_password : Bytes → Session → Session
with_password password session = record session {
  user = record { username = session.user.username; password = password; role = session.user.role };
}

abbrev pub with_passwords : (Bytes → Bytes) → Sessions → Sessions
with_passwords password [] = []
with_passwords password ((id, session) ∷ sessions) =
    (id, with_password (password id) session) ∷ with_passwords password sessions

reply-with_passwords :
    (x : Outside) (env : Env) (client_id id : Bytes) (password : Bytes → Bytes)
    (sessions others : Sessions)
    → reply_session x env others client_id (lookup id (with_passwords password sessions))
      ≡ reply_session x env others client_id (lookup id sessions)
unfolding lookup
reply-with_passwords x env client_id id password [] others = refl
reply-with_passwords x env client_id id password ((j, session) ∷ sessions) others =
    elim (Bool-cases (same j id)) [
      | inl s ↦ rw s refl
      | inr s ↦ rw s (reply-with_passwords x env client_id id password sessions others)
    ]

-- SESSION does not show a password: if the users in the sessions had any other passwords, a client's
-- SESSION would reply the same, and do the same.
pub session_add-with_passwords :
    (x : Outside) (env : Env) (sessions : Sessions) (client_id : Bytes) (password : Bytes → Bytes)
    (args : List Bytes)
    → session_add x env (with_passwords password sessions) client_id args
      ≡ session_add x env sessions client_id args
unfolding session_add
session_add-with_passwords x env sessions client_id password args =
    reply-with_passwords x env client_id client_id password sessions sessions
