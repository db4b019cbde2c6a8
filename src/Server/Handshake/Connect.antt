-- ===== src/Server/Handshake/Connect.antt =====
-- The first request of a connection and those that follow it, in server/eventloop/authentication.go
-- and io_thread.go.
use fleare.Prelude.{
  ℕ, zero, suc, ◌-◌, ◌%◌, ◌^◌, ◌≤◌, ◌<◌, ◌≡◌, refl, sym, ◌∙◌, ap, Bool, Option, some, List, [], ◌∷◌,
  ◌++◌, length, take, drop, All, length-append, length-take, arith,
}
use mathlib.Core.List.{append_assoc, append-nil}
use fleare.Prelude.Bytes.{Bytes}
use fleare.Wal.{put_uint32}
use fleare.Wal.Recover.Frame.{uint32-put_uint32}
use fleare.Server.Framing.{Chunk, bytes_of, push, conn_read, end_of_stream, start_sync, message}
use fleare.Server.Framing.Read.{conn_read-bytes, push-append}
use fleare.Server.Framing.Full.{nonzero}
use fleare.Server.Framing.RoundTrip.{
  append_split, no_chunks, in_range, Sendable, Arrival, Arrives, arriving, bodies,
  start_sync-arriving,
}
use fleare.Server.Sessions.{User, Users, Clock, Sessions, new_session, activate, granted}
use fleare.Server.Sessions.Granted.{Admits, request_auth-Admits}
use fleare.Server.Handshake.{
  Command, onto_bytes, read_exactly, on_args, on_body, on_length, authenticate_client,
}

-- `n` bytes are taken from the chunks `own`.
record Taken (n : ℕ) (own others : List Chunk) (r : Option Bytes × List Chunk) : Type 0 where
  pub bytes : Bytes
  pub own_left : List Chunk
  pub result : r ≡ (some bytes, own_left ++ others)
  pub exact : length bytes ≡ n
  pub in_order : bytes ++ bytes_of own_left ≡ bytes_of own

onto-Taken :
    (n : ℕ) (bytes : Bytes) (own own' others : List Chunk) (r : Option Bytes × List Chunk)
    → length bytes ≤ n
    → bytes ++ bytes_of own' ≡ bytes_of own
    → Taken (n - length bytes) own' others r
    → Taken n own others (onto_bytes bytes r)
onto-Taken n bytes own own' others r h e t = record {
  bytes = bytes ++ t.bytes;
  own_left = t.own_left;
  result = rw t.result refl;
  exact = omega (arith, length-append bytes t.bytes, t.exact, h);
  in_order =
      append_assoc bytes t.bytes (bytes_of t.own_left)
      ∙ ap (λ (s : Bytes). bytes ++ s) t.in_order
      ∙ e;
}

read_exactly-Taken :
    (fuel n : ℕ) (own others : List Chunk)
    → n ≤ fuel
    → n ≤ length (bytes_of own)
    → Taken n own others (read_exactly fuel n (own ++ others))
unfolding read_exactly conn_read
read_exactly-Taken zero n own others h k = record {
  bytes = [];
  own_left = own;
  result = refl;
  exact = omega arith;
  in_order = refl;
}
read_exactly-Taken (suc fuel) zero own others h k = record {
  bytes = [];
  own_left = own;
  result = refl;
  exact = refl;
  in_order = refl;
}
read_exactly-Taken (suc fuel) (suc n) [] others h k = absurd (omega arith)
read_exactly-Taken (suc fuel) (suc n) ((c, cs) ∷ own) others h k =
    rw
      (
        push-append (drop n cs) own others,
        nonzero (suc n) (omega arith),
        nonzero (length (c ∷ take n cs)) (omega arith),
      )
      (onto-Taken (suc n) (c ∷ take n cs) ((c, cs) ∷ own) (push (drop n cs) own) others
        (read_exactly fuel (suc n - length (c ∷ take n cs)) (push (drop n cs) own ++ others))
        (rw (length-take n cs) (omega arith)) (conn_read-bytes (suc n) c cs own)
        (read_exactly-Taken fuel (suc n - length (c ∷ take n cs)) (push (drop n cs) own) others
          (omega arith)
          (omega (
            arith,
            k,
            ap length (conn_read-bytes (suc n) c cs own),
            length-append (take (suc n) (c ∷ cs)) (bytes_of (push (drop n cs) own)),
          ))))

module _ (unmarshal : Bytes → Option Command) (enable_auth : Bool) (users : Users) (clock : Clock)
    (client_id : Bytes) where
  body_read :
      (body : Bytes) (c : Command) (own others : List Chunk) (sessions : Sessions)
      → bytes_of own ≡ body
      → unmarshal body ≡ some c
      → on_body unmarshal enable_auth users clock client_id sessions
          (read_exactly (length body) (length body) (own ++ others))
        ≡ (on_args unmarshal enable_auth users clock client_id c.args sessions, others)
  body_read body c own others sessions e u =
      let t =
        read_exactly-Taken (length body) (length body) own others (omega arith)
          (omega (arith, ap length e)) in
      let parts =
        append_split t.bytes (bytes_of t.own_left) body [] (t.in_order ∙ e ∙ sym (append-nil body))
          t.exact in
      rw (t.result, parts.0, u, no_chunks [] t.own_left (ap length (parts.1))) refl

  length_read :
      (body : Bytes) (c : Command) (own others : List Chunk) (sessions : Sessions)
      (r : Option Bytes × List Chunk)
      → Sendable body
      → unmarshal body ≡ some c
      → Taken 4 own others r
      → bytes_of own ≡ message body
      → on_length unmarshal enable_auth users clock client_id sessions r
        ≡ (on_args unmarshal enable_auth users clock client_id c.args sessions, others)
  unfolding message put_uint32
  length_read body c own others sessions r s u t e =
      let parts =
        append_split t.bytes (bytes_of t.own_left) (put_uint32 (length body % 2 ^ 32)) body
          (t.in_order ∙ e) t.exact in
      rw
        (
          t.result,
          parts.0,
          uint32-put_uint32 (length body % 2 ^ 32) [] (omega arith),
          small,
          in_range (length body) s.nonempty s.at_most,
        )
        (body_read body c t.own_left others sessions (parts.1) u)
    where
      small : length body % 2 ^ 32 ≡ length body
      small = omega (arith, s.at_most)

  -- The first request takes exactly the chunks of its frame, however it is cut.
  authenticate_client-message :
      (body : Bytes) (c : Command) (own others : List Chunk) (sessions : Sessions)
      → Sendable body
      → unmarshal body ≡ some c
      → bytes_of own ≡ message body
      → authenticate_client unmarshal enable_auth users clock client_id sessions (own ++ others)
        ≡ (on_args unmarshal enable_auth users clock client_id c.args sessions, others)
  unfolding authenticate_client message put_uint32
  authenticate_client-message body c own others sessions s u e =
      length_read body c own others sessions (read_exactly 4 4 (own ++ others)) s u
        (read_exactly-Taken 4 4 own others (omega arith) (rw e (omega arith))) e

  -- A client whose first request names a user and a password that the server admits gets a session
  -- under its id, and the loop of its connection then hands over the requests that follow, all of
  -- them, in their order. The requests have 1 byte to 10 MiB and their frames may be cut into
  -- chunks anywhere, but no chunk has bytes of two of them.
  pub connect-serves :
      (body : Bytes) (c : Command) (username password : Bytes) (user : User) (own : List Chunk)
      (arrivals : List Arrival) (fuel : ℕ) (sessions : Sessions)
      → Admits users enable_auth username password user
      → unmarshal body ≡ some c
      → c.args ≡ username ∷ password ∷ []
      → Arrives (body, own)
      → All Arrives arrivals
      → length arrivals < fuel
      → (authenticate_client unmarshal enable_auth users clock client_id sessions
            (own ++ arriving arrivals)
          ≡ (
            (granted, activate clock (new_session clock user client_id) sessions),
            arriving arrivals,
          ))
        × (start_sync fuel (arriving arrivals) ≡ (bodies arrivals, end_of_stream))
  connect-serves body c username password user own arrivals fuel sessions a u e (s, b) all h = (
    authenticate_client-message body c own (arriving arrivals) sessions s u b
        ∙ rw
            (
              e,
              request_auth-Admits users clock client_id sessions enable_auth username password user
                  a,
            )
            refl,
    start_sync-arriving fuel arrivals all h,
  )
