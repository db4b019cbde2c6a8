-- ===== src/Server/Connections.antt =====
-- server/eventloop/io_thread_manager.go, and the life of a connection in server/eventloop/main.go:
-- AcceptNewConnection starts it, startConnThread serves it and clears it away. The goroutines of
-- the connections interleave; what each does under a lock is one step, and so is each change of
-- Unregister, which takes no lock.
pub mod Sound
pub mod Threads
pub mod Invariant
use fleare.Prelude.{ℕ, ◌+◌, ◌%◌, ◌^◌, ◌≡◌, Bool, Option, none, some, List, [], leb, if◌then◌else◌}
use fleare.Prelude.Bytes.{Bytes}
use fleare.Prelude.Dict.{lookup, insert, without}
use fleare.Server.Sessions.{
  Users, Clock, Sessions, Answer, granted, denied, request_auth, on_disconnect,
}

pub record IoThread : Type 0 where
  pub client_id : Bytes
  pub fd : ℕ

pub record IoThreadManager : Type 0 where
  pub connected_clients : List (Bytes × IoThread)
  pub num_io_threads : ℕ

pub data ThreadError : Type 0 where
  max_clients_reached io_thread_not_found stop_failed : ThreadError

abbrev pub new_io_thread_manager : IoThreadManager
new_io_thread_manager = record { connected_clients = []; num_io_threads = 0 }

abbrev pub max_io_threads : ℕ
max_io_threads = 100000

unfoldable pub register : IoThread → IoThreadManager → Option ThreadError × IoThreadManager
register t m = if leb max_io_threads m.num_io_threads then (some max_clients_reached, m) else (
  none,
  record {
    connected_clients = insert t.client_id t m.connected_clients;
    num_io_threads = (m.num_io_threads + 1) % 2 ^ 32;
  },
)

-- Unregister holds no lock, and its two atomic changes are two steps. The first, LoadAndDelete,
-- takes the thread from the table.
abbrev pub without_thread :
    Bytes → IoThreadManager → Option IoThread → Option IoThread × IoThreadManager
without_thread id m none = (none, m)
without_thread id m (some t) =
    (some t, record m { connected_clients = without id m.connected_clients })

unfoldable pub load_and_delete : Bytes → IoThreadManager → Option IoThread × IoThreadManager
load_and_delete id m = without_thread id m (lookup id m.connected_clients)

-- The second stops the thread and counts it off; the sum adds `^uint32(0)`. `stops` says whether the
-- thread's connection is closed without an error.
unfoldable pub stop_thread :
    Bool → Option IoThread → IoThreadManager → Option ThreadError × IoThreadManager
stop_thread stops none m = (some io_thread_not_found, m)
stop_thread stops (some t) m =
    if stops
    then (none, record m { num_io_threads = (m.num_io_threads + 4294967295) % 2 ^ 32 })
    else (some stop_failed, m)

-- Unregister with no step of another goroutine between the two.
unfoldable pub unregister : Bool → Bytes → IoThreadManager → Option ThreadError × IoThreadManager
unfolding load_and_delete stop_thread
unregister stops id m = let (t, m') = load_and_delete id m in stop_thread stops t m'

-- GetThread; its error says only that there is none.
abbrev pub get_thread : Bytes → IoThreadManager → Option IoThread
get_thread id m = lookup id m.connected_clients

-- StopAll closes every connection and leaves the threads in the table.
abbrev pub stop_all : IoThreadManager → IoThreadManager
stop_all m = record m { num_io_threads = 0 }

-- Where a connection stands: it was let in, it is served, its thread was taken from the table, and it
-- was stopped and counted off. What LoadAndDelete found is kept by the goroutine.
pub data Phase : Type 0 where
  accepted serving closing : Phase
  unloaded : Option IoThread → Phase

-- The threads of the server, the table of sessions, and where the goroutine of each connection
-- stands.
pub record Server : Type 0 where
  pub threads : IoThreadManager
  pub sessions : Sessions
  pub phases : List (Bytes × Phase)

abbrev pub new_server : Server
new_server = record { threads = new_io_thread_manager; sessions = []; phases = [] }

abbrev pub on_answer : Bytes → Server → Answer × Sessions → Server
on_answer id s (granted, sessions) = record s {
  sessions = sessions;
  phases = insert id accepted s.phases;
}
on_answer id s (denied reason, sessions) = record s { sessions = sessions }

-- ConnectAndAuthenticate; a client that is not let in is closed.
unfoldable pub accept : Bool → Users → Clock → Bytes → Bytes → Bytes → Server → Server
accept enable_auth users clock username password id s =
    on_answer id s (request_auth enable_auth users clock username password id s.sessions)

-- The returns behind the login: the socket is closed and no session is ended.
unfoldable pub give_up : Bytes → Server → Server
give_up id s = record s { phases = without id s.phases }

abbrev pub thread_for : Bytes → ℕ → Option IoThread → IoThread
thread_for id fd none = record { client_id = id; fd = fd }
thread_for id fd (some t) = t

abbrev pub on_register : Bytes → Server → Option ThreadError × IoThreadManager → Server
on_register id s (none, m) = record s { threads = m; phases = insert id serving s.phases }
on_register id s (some e, m) = record s { threads = m; phases = without id s.phases }

-- The goroutine that registers the thread and then serves it, or closes the socket.
unfoldable pub start : Bytes → ℕ → Server → Server
start id fd s = on_register id s (register (thread_for id fd (get_thread id s.threads)) s.threads)

-- The deferred calls of startConnThread: first Unregister, whose two steps these are, then
-- OnDisconnect.
abbrev pub on_unload : Bytes → Server → Option IoThread × IoThreadManager → Server
on_unload id s (t, m) = record s { threads = m; phases = insert id (unloaded t) s.phases }

unfoldable pub unload : Bytes → Server → Server
unload id s = on_unload id s (load_and_delete id s.threads)

unfoldable pub stop : Bool → Bytes → Option IoThread → Server → Server
stop stops id t s = record s {
  threads = (stop_thread stops t s.threads).1;
  phases = insert id closing s.phases;
}

unfoldable pub finish : Bytes → Server → Server
finish id s = record s { sessions = on_disconnect id s.sessions; phases = without id s.phases }

-- What may happen next. An id names a descriptor and a peer's address and port, and no two
-- connections that last at a time share one.
pub data Step (enable_auth : Bool) (users : Users) : Server → Server → Type 0 where
  accept_step :
      {s : Server} (clock : Clock) (username password id : Bytes)
      → lookup id s.phases ≡ none
      → Step enable_auth users s (accept enable_auth users clock username password id s)
  give_up_step :
      {s : Server} (id : Bytes)
      → lookup id s.phases ≡ some accepted
      → Step enable_auth users s (give_up id s)
  start_step :
      {s : Server} (id : Bytes) (fd : ℕ)
      → lookup id s.phases ≡ some accepted
      → Step enable_auth users s (start id fd s)
  unload_step :
      {s : Server} (id : Bytes)
      → lookup id s.phases ≡ some serving
      → Step enable_auth users s (unload id s)
  stop_step :
      {s : Server} (stops : Bool) (id : Bytes) (t : Option IoThread)
      → lookup id s.phases ≡ some (unloaded t)
      → Step enable_auth users s (stop stops id t s)
  finish_step :
      {s : Server} (id : Bytes)
      → lookup id s.phases ≡ some closing
      → Step enable_auth users s (finish id s)

pub data Reached (enable_auth : Bool) (users : Users) : Server → Type 0 where
  at_start : Reached enable_auth users new_server
  next :
      {s t : Server}
      → Reached enable_auth users s
      → Step enable_auth users s t
      → Reached enable_auth users t
