-- ===== src/Server/Listener.antt =====
-- server/eventloop/main.go: AcceptNewConnection, which polls the event loop for new connections, and
-- the goroutine of a connection, startConnThread. The results of the calls that the handler makes
-- behind unix.Accept come from the environment (`Later`); what matters outside is recorded in the
-- order of the calls (`Effect`).
mod Runs
pub mod Settled
pub mod Starved
pub mod Level
pub mod Drained
use fleare.Prelude.{
  ℕ, zero, suc, Bool, true, false, ◌&&◌, ◌||◌, Option, none, some, List, [], ◌∷◌, ◌++◌, ◌==◌,
  if◌then◌else◌,
}
use fleare.Server.Multiplexer.{Errno, eagain, eintr, emfile, enfile, LoopError, Callback, EventLoop}

-- unix.Accept
pub data Accepted : Type 0 where
  connected : ℕ → Accepted
  refused : Errno → Accepted

-- What the handler returns to Poll.
pub data AcceptError : Type 0 where
  would_block too_many_open accept_failed : Errno → AcceptError

-- What the calls behind unix.Accept give for a connection: ConnectAndAuthenticate lets the client
-- in, SetNonblock succeeds, GetThread finds a thread, NewIOThread makes one, and the manager
-- registers it.
pub record Later : Type 0 where
  pub let_in : Bool
  pub nonblock : Bool
  pub found : Bool
  pub made : Bool
  pub registered : Bool

-- `close` is unix.Close, `added` and `done` are activeThreads.Add(1) and Done; a login is
-- ConnectAndAuthenticate's, a logout OnDisconnect's.
pub data Effect : Type 0 where
  accepted close login logout spawned : ℕ → Effect
  added done : Effect

-- startConnThread to its end, with its deferred calls.
abbrev start_conn_thread : ℕ → List Effect
start_conn_thread fd = close fd ∷ done ∷ logout fd ∷ []

-- The goroutine of a connection: Register of the thread manager, and then startConnThread, or the
-- descriptor is closed.
unfoldable pub conn_thread : Later → ℕ → List Effect
conn_thread later fd = if later.registered then start_conn_thread fd else close fd ∷ done ∷ []

abbrev pub is_none : {A : Type 0} → Option A → Bool
is_none none = true
is_none (some a) = false

module _ {F K : Type 0} (loop : EventLoop F K) (server_fd : ℕ) (accept : K → Accepted × K)
    (later : ℕ → K → Later) where
  -- The handler behind a login, with the result of the event loop's Register.
  abbrev watched_client : ℕ → Later → Option LoopError × K → List Effect × K
  watched_client fd l (some e, k) = (close fd ∷ [], k)
  watched_client fd l (none, k) =
      if l.found || l.made then (added ∷ spawned fd ∷ [], k) else (close fd ∷ [], k)

  abbrev let_in_client : ℕ → Later → K → Option LoopError × K → List Effect × K
  let_in_client fd l k r = if l.nonblock then watched_client fd l r else (close fd ∷ [], k)

  abbrev client_effects : ℕ → Later → K → Option LoopError × K → List Effect × K
  client_effects fd l k r =
      let (effects, k') = let_in_client fd l k r in
      if l.let_in then (accepted fd ∷ login fd ∷ effects, k') else (accepted fd ∷ close fd ∷ [], k)

  -- The handler behind unix.Accept.
  unfoldable pub admit : ℕ → K → List Effect × K
  admit fd k = client_effects fd (later fd k) k (loop.register fd loop.for_reads k)

  abbrev pub on_accept : List Effect → Accepted × K → Option AcceptError × (List Effect × K)
  on_accept log (refused eagain, k) = (some (would_block eagain), (log, k))
  on_accept log (refused eintr, k) = (none, (log, k))
  on_accept log (refused emfile, k) = (some (too_many_open emfile), (log, k))
  on_accept log (refused enfile, k) = (some (too_many_open enfile), (log, k))
  on_accept log (refused e, k) = (some (accept_failed e), (log, k))
  on_accept log (connected fd, k) = let (effects, k') = admit fd k in (none, (log ++ effects, k'))

  -- eventHandler: events of the clients' descriptors are left to their threads.
  unfoldable pub event_handler : Callback F AcceptError (List Effect × K)
  event_handler fd filter flags (log, k) =
      if (fd == server_fd) && loop.is_read filter
      then on_accept log (accept k)
      else (none, (log, k))

  -- AcceptNewConnection until the context is cancelled, here after `rounds` rounds, or Poll fails.
  unfoldable pub accept_new_connection : ℕ → List Effect × K → Option LoopError × (List Effect × K)
  accept_new_connection zero s = (none, s)
  accept_new_connection (suc rounds) s =
      let (e, s') = loop.poll AcceptError (List Effect) event_handler s in
      let more = accept_new_connection rounds s' in if is_none e then more else (e, s')
