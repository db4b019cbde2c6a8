-- ===== src/Server/Runs.antt =====
-- The theorems on server/ at a few requests of one client.
use fleare.Prelude.{
  ℕ, ◌≡◌, ◌≢◌, ◌↔◌, refl, inl, inr, Bool, true, false, Option, none, some, List, [], ◌∷◌, ◌++◌,
  length, arith,
}
use fleare.Prelude.Int.{pos}
use fleare.Prelude.Bytes.{Bytes, same, codes}
use fleare.Prelude.Dict.{lookup}
use fleare.Wal.{put_uint32}
use fleare.Server.Framing.{request, end_of_stream, read_sync, start_sync, message}
use fleare.Server.Framing.RoundTrip.{Sendable, Arrival, start_sync-arriving}
use fleare.Server.Framing.Pipelined.{read_sync-pipelined}
use fleare.Server.Sessions.{
  User, Users, Clock, Session, Sessions, new_session, activate, granted, get_by_id, request_auth,
}
use fleare.Server.Sessions.Granted.{Admits, by_password}
use fleare.Server.Sessions.History.{
  login, leave, sessions_after, opened, LoggedIn, get_by_id-LoggedIn,
}
use fleare.Server.Handshake.{Command, authenticate_client}
use fleare.Server.Handshake.Connect.{connect-serves}
use fleare.Server.Connections.{
  Server, new_server, accept, start, Reached, at_start, next, accept_step, start_step,
}
use fleare.Server.Connections.Sound.{Sound}
use fleare.Server.Connections.Invariant.{Reached-Sound}

-- The frames of the requests 7 and 8, the first one in two chunks.
abbrev two_arrivals : List Arrival
two_arrivals =
    (7 ∷ [], (0, 0 ∷ 0 ∷ []) ∷ (1, 7 ∷ []) ∷ []) ∷ (8 ∷ [], (0, 0 ∷ 0 ∷ 1 ∷ 8 ∷ []) ∷ []) ∷ []

one_byte : (b : ℕ) → Sendable (b ∷ [])
one_byte b = record { nonempty = omega arith; at_most = omega arith }

start_sync-arriving_example :
    start_sync 3 ((0, 0 ∷ 0 ∷ []) ∷ (1, 7 ∷ []) ∷ (0, 0 ∷ 0 ∷ 1 ∷ 8 ∷ []) ∷ [])
    ≡ ((7 ∷ []) ∷ (8 ∷ []) ∷ [], end_of_stream)
unfolding message put_uint32
start_sync-arriving_example =
    start_sync-arriving 3 two_arrivals ((one_byte 7, refl), ((one_byte 8, refl), tt)) (omega arith)

read_sync-pipelined_example :
    read_sync ((0, 0 ∷ 0 ∷ 1 ∷ 7 ∷ 0 ∷ 0 ∷ 0 ∷ 1 ∷ 8 ∷ []) ∷ []) ≡ (request (7 ∷ []), [])
unfolding message put_uint32
read_sync-pipelined_example =
    read_sync-pipelined (7 ∷ []) (message (8 ∷ [])) 0 (0 ∷ 0 ∷ 1 ∷ 7 ∷ 0 ∷ 0 ∷ 0 ∷ 1 ∷ 8 ∷ []) []
      (one_byte 7) refl (omega arith)

abbrev ann : User
ann = record { username = codes "ann"; password = codes "pw"; role = codes "root" }

abbrev ann_only : Users
ann_only = (codes "ann", ann) ∷ []

abbrev at_noon : Clock
at_noon = record {
  created = pos 12;
  accessed = pos 12;
  activated = pos 12;
  activated_accessed = pos 12;
}

ann_admitted : Admits ann_only true (codes "ann") (codes "pw") ann
unfolding lookup same
ann_admitted = by_password (λ e. cc) (λ e. cc) refl refl

abbrev log_in : Bytes → Option Command
log_in body = some (record { command = codes "AUTH"; args = codes "ann" ∷ codes "pw" ∷ [] })

connect-serves_example :
    (authenticate_client log_in true ann_only at_noon
        (codes "5-x")
        []
        ((0, 0 ∷ 0 ∷ 1 ∷ 9 ∷ []) ∷ (0, 0 ∷ 0 ∷ []) ∷ (1, 7 ∷ []) ∷ (0, 0 ∷ 0 ∷ 1 ∷ 8 ∷ []) ∷ [])
      ≡ (
        (granted, activate at_noon (new_session at_noon ann (codes "5-x")) []),
        (0, 0 ∷ 0 ∷ []) ∷ (1, 7 ∷ []) ∷ (0, 0 ∷ 0 ∷ 1 ∷ 8 ∷ []) ∷ [],
      ))
    × (start_sync 3 ((0, 0 ∷ 0 ∷ []) ∷ (1, 7 ∷ []) ∷ (0, 0 ∷ 0 ∷ 1 ∷ 8 ∷ []) ∷ [])
        ≡ ((7 ∷ []) ∷ (8 ∷ []) ∷ [], end_of_stream))
unfolding message put_uint32
connect-serves_example =
    connect-serves log_in true ann_only at_noon (codes "5-x") (9 ∷ [])
      (record { command = codes "AUTH"; args = codes "ann" ∷ codes "pw" ∷ [] }) (codes "ann")
      (codes "pw") ann ((0, 0 ∷ 0 ∷ 1 ∷ 9 ∷ []) ∷ []) two_arrivals 3 [] ann_admitted refl refl
      (one_byte 9, refl) ((one_byte 7, refl), ((one_byte 8, refl), tt)) (omega arith)

get_by_id-LoggedIn_example :
    (get_by_id (codes "5-x") (
        sessions_after true ann_only
          (leave (codes "6-y") ∷ login at_noon (codes "ann") (codes "pw") (codes "5-x") ∷ []))
      ≡ some (opened true ann_only at_noon ann (codes "5-x")))
    ↔ LoggedIn true ann_only
        (codes "5-x")
        (leave (codes "6-y") ∷ login at_noon (codes "ann") (codes "pw") (codes "5-x") ∷ [])
        (opened true ann_only at_noon ann (codes "5-x"))
get_by_id-LoggedIn_example =
    get_by_id-LoggedIn true ann_only (codes "5-x")
      (leave (codes "6-y") ∷ login at_noon (codes "ann") (codes "pw") (codes "5-x") ∷ [])
      (opened true ann_only at_noon ann (codes "5-x"))

abbrev ann_accepted : Server
ann_accepted = accept true ann_only at_noon (codes "ann") (codes "pw") (codes "5-x") new_server

ann_serving : Reached true ann_only (start (codes "5-x") 5 ann_accepted)
unfolding accept request_auth lookup same fleare.Server.Sessions.validate fleare.Prelude.Dict.insert
    fleare.Prelude.Dict.without fleare.Server.Sessions.activate
ann_serving =
    next (next at_start (accept_step at_noon (codes "ann") (codes "pw") (codes "5-x") refl))
      (start_step (codes "5-x") 5 refl)

Reached-Sound_example : Sound (start (codes "5-x") 5 ann_accepted)
Reached-Sound_example = Reached-Sound true ann_only (start (codes "5-x") 5 ann_accepted) ann_serving
