-- ===== src/Server/Traffic.antt =====
-- What is done with a request: OnTraffic of server/service_manager.go, Execute of
-- commander/common/cmd_executor.go with the table of commands, and the commands PING, SESSION and
-- STATUS. `unmarshal` is proto.Unmarshal, `to_upper` is strings.ToUpper, and the two `show` are
-- json.Marshal of the records that the commands build. The text of an error is left out.
mod Runs
pub mod Durable
pub mod Masked
pub mod Restart
use fleare.Prelude.{ℕ, Option, none, some, List, [], ◌∷◌, ◌++◌, length}
use fleare.Prelude.Int.{ℤ}
use fleare.Prelude.Bytes.{Bytes, codes}
use fleare.Prelude.Dict.{lookup}
use fleare.Store.{Memory, length_of}
use fleare.Exec.{
  Outcome, ok, err, crash, on_outcome, Exec, fail, pure, invalid_command, other_error,
}
use fleare.Json.{Library}
use fleare.Shard.{Env, ShardManager}
use fleare.Command.{Handler}
use fleare.Command.Lists.{list_gpop}
use fleare.Command.Requests.{
  Name, set_name, get_name, delete_name, exists_name, expire_name, ttl_name, str_set_name,
  str_get_name, str_append_name, str_length_name, str_range_name, num_set_name, num_get_name,
  num_incr_name, num_decr_name, list_set_name, list_push_name, list_iset_name, list_get_name,
  list_len_name, list_pop_name, map_set_name, map_cset_name, map_get_name, map_del_name, handler,
  list_find_name, json_set_name, json_get_name, json_pget_name, json_ref_set_name, json_remove_name,
  json_add_name, json_merge_name,
}
use fleare.Server.Sessions.{User, Session, Sessions, get_by_id}
use fleare.Server.Handshake.{Command}

-- What ExecCommands holds for a name.
pub data Registered : Type 0 where
  command_of : Name → Registered
  gpop_command ping_command session_command status_command : Registered

abbrev pub exec_commands : List (Bytes × Registered)
exec_commands =
    (codes "DELETE", command_of delete_name)
    ∷ (codes "EXISTS", command_of exists_name)
    ∷ (codes "GET", command_of get_name)
    ∷ (codes "SET", command_of set_name)
    ∷ (codes "PING", ping_command)
    ∷ (codes "SESSION", session_command)
    ∷ (codes "STATUS", status_command)
    ∷ (codes "TTL.EXPIRE", command_of expire_name)
    ∷ (codes "TTL", command_of ttl_name)
    ∷ (codes "STR.SET", command_of str_set_name)
    ∷ (codes "STR.GET", command_of str_get_name)
    ∷ (codes "STR.APPEND", command_of str_append_name)
    ∷ (codes "STR.LENGTH", command_of str_length_name)
    ∷ (codes "STR.RANGE", command_of str_range_name)
    ∷ (codes "NUM.SET", command_of num_set_name)
    ∷ (codes "NUM.GET", command_of num_get_name)
    ∷ (codes "NUM.INCR", command_of num_incr_name)
    ∷ (codes "NUM.DECR", command_of num_decr_name)
    ∷ (codes "LIST.SET", command_of list_set_name)
    ∷ (codes "LIST.PUSH", command_of list_push_name)
    ∷ (codes "LIST.ISET", command_of list_iset_name)
    ∷ (codes "LIST.GET", command_of list_get_name)
    ∷ (codes "LIST.LEN", command_of list_len_name)
    ∷ (codes "LIST.POP", command_of list_pop_name)
    ∷ (codes "LIST.GPOP", gpop_command)
    ∷ (codes "LIST.FIND", command_of list_find_name)
    ∷ (codes "MAP.SET", command_of map_set_name)
    ∷ (codes "MAP.CSET", command_of map_cset_name)
    ∷ (codes "MAP.GET", command_of map_get_name)
    ∷ (codes "MAP.DEL", command_of map_del_name)
    ∷ (codes "JSON.SET", command_of json_set_name)
    ∷ (codes "JSON.SETREF", command_of json_ref_set_name)
    ∷ (codes "JSON.GET", command_of json_get_name)
    ∷ (codes "JSON.PGET", command_of json_pget_name)
    ∷ (codes "JSON.REMOVE", command_of json_remove_name)
    ∷ (codes "JSON.ADD", command_of json_add_name)
    ∷ (codes "JSON.MERGE", command_of json_merge_name)
    ∷ []

-- strings.Join
abbrev pub join : Bytes → List Bytes → Bytes
join sep [] = []
join sep (a ∷ []) = a
join sep (a ∷ b ∷ rest) = a ++ sep ++ join sep (b ∷ rest)

abbrev pub echo_back : Handler
echo_back args = pure (codes "PONG " ++ join (codes " ") args)

abbrev pub or_failed : Option Bytes → Exec ShardManager Bytes
or_failed none = fail other_error
or_failed (some text) = pure text

-- Session.String hides the password.
abbrev pub masked : Session → Session
masked session = record session {
  user = record {
    username = session.user.username;
    password = codes "*******";
    role = session.user.role;
  };
}

-- GetAllShardInfo: the number of shards, and of each shard the number of its keys, which is all that
-- changes, with the time, here its second.
abbrev pub key_lengths : List (Bytes × Memory) → List (Bytes × ℤ)
key_lengths [] = []
key_lengths ((id, m) ∷ shards) = (id, length_of m) ∷ key_lengths shards

pub record Status : Type 0 where
  pub shard_count : ℕ
  pub key_length : List (Bytes × ℤ)
  pub up_time : ℤ

abbrev pub get_all_shard_info : ℤ → ShardManager → Status
get_all_shard_info now sm = record {
  shard_count = length sm.shards;
  key_length = key_lengths sm.shards;
  up_time = now;
}

-- What OnTraffic writes to the connection.
pub data Response : Type 0 where
  success : Bytes → Response
  failure : Response

abbrev pub respond : Outcome Bytes × ShardManager → Outcome Response × ShardManager
respond (ok result, sm) = (ok (success result), sm)
respond (err e, sm) = (ok failure, sm)
respond (crash, sm) = (crash, sm)

-- What stays the same for all requests.
pub record Outside : Type 1 where
  pub library : Library
  pub unmarshal : Bytes → Option Command
  pub to_upper : Bytes → Bytes
  pub show_session : Session → Option Bytes
  pub show_status : Status → Option Bytes

module _ (x : Outside) (env : Env) (sessions : Sessions) (client_id : Bytes) where
  abbrev pub reply_session : Option Session → Exec ShardManager Bytes
  reply_session none = fail other_error
  reply_session (some session) = or_failed (x.show_session (masked session))

  unfoldable pub session_add : Handler
  session_add args = reply_session (get_by_id client_id sessions)

  abbrev pub server_status : Handler
  server_status args sm = or_failed (x.show_status (get_all_shard_info env.now sm)) sm

  abbrev pub execute_registered : Option Registered → Handler
  execute_registered none args = fail invalid_command
  execute_registered (some (command_of name)) args = handler x.library name env args
  execute_registered (some gpop_command) args = list_gpop env x.library args
  execute_registered (some ping_command) args = echo_back args
  execute_registered (some session_command) args = session_add args
  execute_registered (some status_command) args = server_status args

  unfoldable pub execute : Command → Exec ShardManager Bytes
  execute c = execute_registered (lookup (x.to_upper c.command) exec_commands) c.args

  abbrev pub on_command : Option Command → Exec ShardManager Response
  on_command none sm = (ok failure, sm)
  on_command (some c) sm = respond (execute c sm)

  unfoldable pub on_traffic : Bytes → Exec ShardManager Response
  on_traffic body = on_command (x.unmarshal body)

-- A request's connection, its bytes and what it finds.
pub record Traffic : Type 0 where
  pub env : Env
  pub sessions : Sessions
  pub client_id : Bytes
  pub body : Bytes

-- The requests in the order in which they are served. Nothing recovers from a panic: it ends the
-- process, and no later request is served.
abbrev pub serve_traffic : Outside → List Traffic → Exec ShardManager (Unit {0})
serve_traffic x [] sm = (ok tt, sm)
serve_traffic x (t ∷ more) sm =
    on_outcome (on_traffic x t.env t.sessions t.client_id t.body sm) (λ r. serve_traffic x more)
