-- ===== src/Server/Traffic/Durable.antt =====
-- Requests as they arrive at OnTraffic of server/service_manager.go: the agreement of the log and
-- the memory.
use fleare.Prelude.{arith, ◌≡◌, ◌≢◌, refl, Option, none, some, List, [], ◌∷◌}
use fleare.Prelude.Int.{◌≤ℤ◌}
use fleare.Prelude.Bytes.{Bytes}
use fleare.Prelude.Dict.{lookup}
use fleare.Exec.{Outcome, ok, err, crash, on_outcome}
use fleare.Exec.Keeps.{Keeps, keeps_rules}
use fleare.Shard.{Env, ShardManager}
use fleare.Shard.Durable.{Durable}
use fleare.Command.Requests.Durable.{Healthy, handler-Durable, Durable-later}
use fleare.Server.Sessions.{Session, Sessions, get_by_id}
use fleare.Server.Handshake.{Command}
use fleare.Server.Traffic.{
  Registered, command_of, gpop_command, ping_command, session_command, status_command,
  exec_commands, or_failed, get_all_shard_info, Response, respond, Outside, reply_session,
  session_add, execute_registered, execute, on_command, on_traffic, Traffic, serve_traffic,
}

-- The request does not name LIST.GPOP.
abbrev pub NoGpop : Outside → Bytes → Type 0
NoGpop x body =
    (c : Command)
    → x.unmarshal body ≡ some c
    → lookup (x.to_upper c.command) exec_commands ≢ some gpop_command

module _ {P : ShardManager → Type 0} where
  or_failed-Keeps : (o : Option Bytes) → Keeps P (or_failed o)
  or_failed-Keeps none = search keeps_rules
  or_failed-Keeps (some text) = search keeps_rules

module _ (x : Outside) (env : Env) (sessions : Sessions) (client_id : Bytes) where
  registered-Durable :
      (o : Option Registered) (args : List Bytes)
      → Healthy env
      → o ≢ some gpop_command
      → Keeps (Durable env) (execute_registered x env sessions client_id o args)
  unfolding session_add
  registered-Durable none args h n = search keeps_rules
  registered-Durable (some (command_of name)) args h n = handler-Durable x.library env name args h
  registered-Durable (some gpop_command) args h n = absurd (n refl)
  registered-Durable (some ping_command) args h n = search keeps_rules
  registered-Durable (some session_command) args h n =
      session_Durable (get_by_id client_id sessions)
    where
      session_Durable :
          (o : Option Session) → Keeps (Durable env) (reply_session x env sessions client_id o)
      session_Durable none = search keeps_rules
      session_Durable (some session) = or_failed-Keeps _
  registered-Durable (some status_command) args h n = record {
    at = λ sm d.
        (or_failed-Keeps {P = Durable env} (x.show_status (get_all_shard_info env.now sm))).at sm d;
  }

  respond_keeps :
      (r : Outcome Bytes × ShardManager) → Durable env (r.1) → Durable env ((respond r).1)
  respond_keeps (ok result, sm) d = d
  respond_keeps (err e, sm) d = d
  respond_keeps (crash, sm) d = d

  command-Durable :
      (o : Option Command)
      → Healthy env
      → ((c : Command)
          → o ≡ some c
          → lookup (x.to_upper c.command) exec_commands ≢ some gpop_command)
      → Keeps (Durable env) (on_command x env sessions client_id o)
  unfolding execute
  command-Durable none h n = record { at = λ sm d. d }
  command-Durable (some c) h n = record {
    at = λ sm d. respond_keeps _ (
        (registered-Durable (lookup (x.to_upper c.command) exec_commands) c.args h (n c refl)).at sm
          d);
  }

  on_traffic-Durable :
      (body : Bytes)
      → Healthy env
      → NoGpop x body
      → Keeps (Durable env) (on_traffic x env sessions client_id body)
  unfolding on_traffic
  on_traffic-Durable body h n = command-Durable (x.unmarshal body) h n

-- The clock does not go back from one request to the next, up to a last reading of it, and every
-- request finds the same hash of keys and a log that takes its entries; none names LIST.GPOP.
abbrev pub Timely : Outside → Env → List Traffic → Env → Type 0
Timely x first [] last = (last.hash_key ≡ first.hash_key) × (first.now ≤ℤ last.now)
Timely x first (t ∷ more) last =
    ((t.env.hash_key ≡ first.hash_key) × (first.now ≤ℤ t.env.now))
    × (Healthy t.env × (NoGpop x t.body × Timely x t.env more last))

module _ (x : Outside) where
  -- No request of them panics.
  abbrev pub Served : List Traffic → ShardManager → Type 0
  Served traffic sm = (serve_traffic x traffic sm).0 ≡ ok tt

  -- The requests behind one that did not panic.
  after_request-Durable :
      (env last : Env) (more : ShardManager → Outcome (Unit {0}) × ShardManager)
      (r : Outcome Response × ShardManager)
      → ((sm : ShardManager) → (more sm).0 ≡ ok tt → Durable env sm → Durable last (more sm).1)
      → (on_outcome r (λ a. more)).0 ≡ ok tt
      → Durable env r.1
      → Durable last (on_outcome r (λ a. more)).1
  after_request-Durable env last more (ok a, sm) ih e d = ih sm e d
  after_request-Durable env last more (err e', sm) ih e d = absurd (ground arith)
  after_request-Durable env last more (crash, sm) ih e d = absurd (ground arith)

  pub serve_traffic-Durable :
      (first : Env) (traffic : List Traffic) (last : Env) (sm : ShardManager)
      → Timely x first traffic last
      → Served traffic sm
      → Durable first sm
      → Durable last (serve_traffic x traffic sm).1
  serve_traffic-Durable first [] last sm (h, t) fine d = Durable-later first last sm h t d
  serve_traffic-Durable first (t ∷ more) last sm ((h, later), (healthy, (n, rest))) fine d =
      after_request-Durable t.env last (serve_traffic x more)
        (on_traffic x t.env t.sessions t.client_id t.body sm)
        (λ sm'. serve_traffic-Durable t.env more last sm' rest) fine
        ((on_traffic-Durable x t.env t.sessions t.client_id t.body healthy n).at sm
          (Durable-later first t.env sm h later d))
