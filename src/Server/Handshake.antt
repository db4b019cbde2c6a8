-- ===== src/Server/Handshake.antt =====
-- server/eventloop/authentication.go: the first request of a connection, read with unix.Read from
-- the socket, which gives no bytes at the end of the stream. The socket is in its blocking mode;
-- other errors of the call are left out. `unmarshal` is proto.Unmarshal into a comm.Command.
pub mod Connect
use fleare.Prelude.{
  ℕ, zero, suc, ◌-◌, Bool, ◌||◌, Option, none, some, List, [], ◌∷◌, ◌++◌, length, ltb, ◌==◌,
  if◌then◌else◌,
}
use fleare.Prelude.Bytes.{Bytes}
use fleare.Wal.{uint32}
use fleare.Server.Framing.{Chunk, conn_read, max_request_body_size}
use fleare.Server.Sessions.{
  Users, empty_request, invalid_length, invalid_format, invalid_arguments, Clock, Sessions, Answer,
  denied, request_auth,
}

-- comm.Command
pub record Command : Type 0 where
  pub command : Bytes
  pub args : List Bytes

abbrev pub onto_bytes : Bytes → Option Bytes × List Chunk → Option Bytes × List Chunk
onto_bytes bytes (none, chunks) = (none, chunks)
onto_bytes bytes (some more, chunks) = (some (bytes ++ more), chunks)

-- The loops that fill a buffer of `n` bytes; each round reads a byte at least.
unfoldable pub read_exactly : ℕ → ℕ → List Chunk → Option Bytes × List Chunk
unfolding conn_read
read_exactly zero n chunks = (some [], chunks)
read_exactly (suc fuel) n chunks =
    let (bytes, chunks') = conn_read n chunks in
    let rest = onto_bytes bytes (read_exactly fuel (n - length bytes) chunks') in
    if n == 0 then (some [], chunks) else if length bytes == 0 then (none, chunks') else rest

module _ (unmarshal : Bytes → Option Command) (enable_auth : Bool) (users : Users) (clock : Clock)
    (client_id : Bytes) where
  abbrev pub on_args : List Bytes → Sessions → Answer × Sessions
  on_args [] sessions = request_auth enable_auth users clock [] [] client_id sessions
  on_args (username ∷ password ∷ []) sessions =
      request_auth enable_auth users clock username password client_id sessions
  on_args args sessions = (denied invalid_arguments, sessions)

  abbrev pub on_request : Option Command → Sessions → Answer × Sessions
  on_request none sessions = (denied invalid_format, sessions)
  on_request (some c) sessions = on_args c.args sessions

  abbrev pub on_body : Sessions → Option Bytes × List Chunk → (Answer × Sessions) × List Chunk
  on_body sessions (none, chunks) = ((denied empty_request, sessions), chunks)
  on_body sessions (some body, chunks) = (on_request (unmarshal body) sessions, chunks)

  abbrev pub on_length : Sessions → Option Bytes × List Chunk → (Answer × Sessions) × List Chunk
  on_length sessions (none, chunks) = ((denied empty_request, sessions), chunks)
  on_length sessions (some bytes, chunks) =
      let n = uint32 bytes in
      if (n == 0) || ltb max_request_body_size n
      then ((denied invalid_length, sessions), chunks)
      else on_body sessions (read_exactly n n chunks)

  unfoldable pub authenticate_client : Sessions → List Chunk → (Answer × Sessions) × List Chunk
  unfolding read_exactly
  authenticate_client sessions chunks = on_length sessions (read_exactly 4 4 chunks)
