-- ===== src/Server/Traffic/Runs.antt =====
-- The theorems on requests at one request, SET with a key and a value.
use fleare.Prelude.{
  ℕ, ◌≡◌, ◌≢◌, refl, inl, inr, true, false, ◌==◌, ltb, leb, Option, none, some, List, [], ◌∷◌, ◌++◌,
  arith,
}
use mathlib.Core.Option.{some-injective}
use fleare.Prelude.Int.{ℤ, pos}
use fleare.Prelude.Bytes.{Bytes, same, codes}
use fleare.Prelude.Dict.{lookup}
use fleare.Store.{Object}
use fleare.Json.{Library, str}
use fleare.Shard.{Env, ShardManager, new_shard_manager, recover_memory}
use fleare.Shard.Access.{stored}
use fleare.Server.Sessions.{Session, active}
use fleare.Server.Handshake.{Command}
use fleare.Wal.{Entry, Codec, sync_every_batch, Options, update_op}
use fleare.Wal.Recover.{done, recover}
use fleare.Wal.Recover.Frame.{Survives}
use fleare.Wal.System.{WalSystem, SystemEvent, write, round_of, new_wal_system, system_run, files}
use fleare.Server.Traffic.Restart.{Logged, files-restart}
use fleare.Server.Traffic.{
  gpop_command, exec_commands, Outside, Traffic, session_add, serve_traffic,
}
use fleare.Server.Traffic.Durable.{NoGpop, Timely, Served}
use fleare.Server.Traffic.Masked.{with_passwords, session_add-with_passwords}

abbrev in_second : ℕ → Env
in_second n = record { hash_key = λ key. 0; now = pos n; accepts = λ i. true; strict_mode = false }

abbrev strings_only : Library
strings_only = record {
  Float = ℕ;
  unmarshal = λ s. some (str s);
  marshal = λ v. none;
  valid = λ s. true;
  parse_float = λ s. none;
  of_int = λ i. 0;
  float_eq = λ a b. a == b;
  float_lt = λ a b. ltb a b;
  float_le = λ a b. leb a b;
  show = λ v. [];
  parse_bool = λ s. none;
  equal_fold = λ a b. false;
  one = 1;
  add = λ a b. a;
  sub = λ a b. a;
  runes = λ s. s;
  of_runes = λ s. s;
}

abbrev a_key : Bytes
a_key = b'a' ∷ []

abbrev set_one : Command
set_one = record { command = codes "SET"; args = a_key ∷ (b'1' ∷ []) ∷ [] }

-- Every request is this SET, and a session is shown by its user's name and password.
abbrev only_set : Outside
only_set = record {
  library = strings_only;
  unmarshal = λ body. some set_one;
  to_upper = λ s. s;
  show_session = λ session. some (session.user.username ++ session.user.password);
  show_status = λ status. none;
}

abbrev one_request : List Traffic
one_request = record { env = in_second 100; sessions = []; client_id = codes "5-x"; body = [] } ∷ []

is_no_gpop : lookup (set_one.command) exec_commands ≢ some gpop_command
unfolding lookup same
is_no_gpop e = cc

set_one-NoGpop : NoGpop only_set []
set_one-NoGpop c e = rw (← some-injective set_one c e) is_no_gpop

one_request-Timely : Timely only_set (in_second 99) one_request (in_second 102)
one_request-Timely = (
  (refl, omega arith),
  (((λ n. refl), (omega arith, omega arith)), (set_one-NoGpop, (refl, omega arith))),
)

abbrev one_object : Object
one_object = record { value = b'1' ∷ []; kind = 0; timestamp = pos 0 }

one_request-Served : Served only_set one_request (new_shard_manager (in_second 99).hash_key 1)
unfolding fleare.Prelude.Dict.lookup fleare.Command.is_valid_key fleare.Shard.on_shard
    fleare.Command.Common.set_key fleare.Command.save new_shard_manager fleare.Prelude.Bytes.same
    fleare.Prelude.Decimal.itoa fleare.Ring.get_node fleare.Ring.add_nodes fleare.Ring.add_node
    fleare.Ring.sort fleare.Ring.search fleare.Ring.search_loop fleare.Prelude.Decimal.digits
    fleare.Prelude.Dict.insert fleare.Prelude.Int.◌+ℤ◌ fleare.Ring.node_for fleare.Ring.place
    fleare.Shard.ids_from fleare.Shard.send_entry fleare.Store.set fleare.Server.Traffic.on_traffic
    fleare.Server.Traffic.execute
one_request-Served = refl

one_stored :
    stored
      (in_second 102)
      (serve_traffic only_set one_request (new_shard_manager (in_second 99).hash_key 1)).1
      a_key
    ≡ some one_object
unfolding fleare.Prelude.Dict.lookup fleare.Command.is_valid_key fleare.Shard.on_shard
    fleare.Command.Common.set_key fleare.Command.save new_shard_manager fleare.Prelude.Bytes.same
    fleare.Prelude.Decimal.itoa fleare.Ring.get_node fleare.Ring.add_nodes fleare.Ring.add_node
    fleare.Ring.sort fleare.Ring.search fleare.Ring.search_loop fleare.Prelude.Decimal.digits
    fleare.Prelude.Dict.insert fleare.Prelude.Int.◌+ℤ◌ fleare.Ring.node_for fleare.Ring.place
    fleare.Shard.ids_from fleare.Shard.send_entry fleare.Store.set fleare.Server.Traffic.on_traffic
    fleare.Server.Traffic.execute
one_stored = refl

abbrev ann_session : Session
ann_session = record {
  session_id = codes "5-x";
  user = record { username = codes "ann"; password = codes "pw"; role = codes "root" };
  status = active;
  created_at = pos 12;
  last_accessed_at = pos 12;
}

session_add-with_passwords_example :
    session_add only_set
      (in_second 100)
      (with_passwords (λ id. codes "other") ((codes "5-x", ann_session) ∷ []))
      (codes "5-x")
      []
    ≡ session_add only_set (in_second 100) ((codes "5-x", ann_session) ∷ []) (codes "5-x") []
session_add-with_passwords_example =
    session_add-with_passwords only_set (in_second 100) ((codes "5-x", ann_session) ∷ [])
      (codes "5-x") (λ id. codes "other") []

-- The operation and the key; there is one object only.
abbrev one_codec : Codec
one_codec = record {
  marshal = λ e. some (e.op ∷ e.key);
  unmarshal = λ bytes. elim bytes [
    | [] ↦ none
    | op ∷ key ↦ some (record { op = op; key = key; object = some one_object })
  ];
  checksum = λ bytes. 7;
}

abbrev logs_set : Entry
logs_set = record { op = update_op; key = a_key; object = some one_object }

logs_set-Survives : Survives one_codec logs_set (0 ∷ a_key)
logs_set-Survives = record {
  written = refl;
  read_back = refl;
  fits = omega arith;
  sum_fits = omega arith;
  known_op = omega arith;
}

abbrev small_batches : Options
small_batches = record { batch_bytes = 4; sync_policy = sync_every_batch; sync_every_n = 1 }

abbrev one_write : List SystemEvent
one_write = write logs_set ∷ round_of (codes "0") true ∷ []

one_write-Logged :
    Logged one_codec small_batches
      (in_second 99)
      0
      (serve_traffic only_set one_request (new_shard_manager (in_second 99).hash_key 1)).1.log
      a_key
      one_write
      (codes "0" ∷ [])
unfolding fleare.Prelude.Dict.lookup fleare.Command.is_valid_key fleare.Shard.on_shard
    fleare.Command.Common.set_key fleare.Command.save new_shard_manager fleare.Prelude.Bytes.same
    fleare.Prelude.Decimal.itoa fleare.Ring.get_node fleare.Ring.add_nodes fleare.Ring.add_node
    fleare.Ring.sort fleare.Ring.search fleare.Ring.search_loop fleare.Prelude.Decimal.digits
    fleare.Prelude.Dict.insert fleare.Prelude.Int.◌+ℤ◌ fleare.Ring.node_for fleare.Ring.place
    fleare.Shard.ids_from fleare.Shard.send_entry fleare.Store.set fleare.Server.Traffic.on_traffic
    fleare.Server.Traffic.execute fleare.Wal.System.new_wal_system
one_write-Logged = record {
  writes = refl;
  survive = ((_, logs_set-Survives), tt);
  of_shards = (refl, tt);
  once = inl (refl, tt);
}

files-restart_example :
    (ws : WalSystem) × (system_run
        (in_second 99).hash_key
        one_codec
        small_batches
        one_write
        (new_wal_system (in_second 99).hash_key 1)
      ≡ some ws)
    × (es : List Entry) × (recover one_codec
          (files (in_second 99).hash_key one_codec small_batches (codes "0" ∷ []) ws)
        ≡ (es, done))
    × (stored
          (in_second 120)
          (recover_memory
            (in_second 120)
            (pos 120)
            es
            (new_shard_manager (in_second 120).hash_key 2)).1
          a_key
        ≡ some one_object)
files-restart_example =
    files-restart only_set one_codec small_batches (in_second 99) one_request (in_second 102)
      (in_second 120) 0 1 one_write (codes "0" ∷ []) a_key one_object one_request-Timely
      one_request-Served one_write-Logged one_stored (omega arith) (omega arith, omega arith)
      (inl refl)
