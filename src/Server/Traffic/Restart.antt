-- ===== src/Server/Traffic/Restart.antt =====
-- Requests to the server, the files of its log, and the server that is started from them:
-- server/service_manager.go, internal/wal/wal.go and internal/shard/shard_manager.go together.
use fleare.Prelude.{ℕ, suc, ◌≡◌, ◌∙◌, ap, some, List, [], All}
use fleare.Prelude.Int.{pos, ◌≤ℤ◌, IsInt64}
use fleare.Prelude.Bytes.{Bytes}
use fleare.Prelude.Dict.{lookup}
use fleare.Ring.{get_node}
use fleare.Store.{Object}
use fleare.Shard.{Env, new_shard_manager, recover_memory}
use fleare.Shard.Access.{stored, logged}
use fleare.Shard.Recovery.{Lasting}
use fleare.Shard.Restart.{new_shard_manager-Durable, restart-from}
use fleare.Wal.{Entry, Codec, Options, new_wal_shard}
use fleare.Wal.Recover.{done, recover}
use fleare.Wal.Recover.RoundTrip.{AllSurvive}
use fleare.Wal.System.{WalSystem, SystemEvent, new_wal_system, system_run, files}
use fleare.Wal.System.Parts.{written}
use fleare.Wal.System.Whole.{Once, logged-recover}
use fleare.Server.Traffic.{Outside, Traffic, serve_traffic}
use fleare.Server.Traffic.Durable.{Timely, Served, serve_traffic-Durable}

-- The log that the requests left was written by a WALSystem, whose files are read back.
pub record Logged (c : Codec) (o : Options) (first : Env) (n : ℕ) (log : List Entry) (key : Bytes)
    (evs : List SystemEvent) (order : List Bytes) : Type 0 where
  pub writes : written evs ≡ log
  pub survive : AllSurvive c (written evs)
  pub of_shards :
      All
        (λ id. lookup id (new_wal_system first.hash_key (suc n)).shards ≡ some (new_wal_shard []))
        order
  pub once : Once (get_node first.hash_key key (new_wal_system first.hash_key (suc n)).chash) order

-- Requests arrive at a new server, from any clients and with any sessions, valid or not, and none of
-- their handlers panics, which would end the process. Then the entries of the handlers go to the
-- goroutines of the log's shards, which pack and write them in rounds that may fall anywhere; after
-- Close, the files are read back without an error, in any order of the shards in which the key's
-- shard occurs once; and from what is read, a new server gets back the object that was stored under
-- the key, with the same value, kind and timestamp, if it does not expire or expires after the second
-- of the restart. Every entry survives its encoding, there is one shard at least, no request names
-- LIST.GPOP, and the requests are as `Timely` says.
pub files-restart :
    (x : Outside) (c : Codec) (o : Options) (first : Env) (traffic : List Traffic)
    (last later : Env) (n shards' : ℕ) (evs : List SystemEvent) (order : List Bytes) (key : Bytes)
    (obj : Object)
    → Timely x first traffic last
    → Served x traffic (new_shard_manager first.hash_key (suc n))
    → Logged c o first n
        (serve_traffic x traffic (new_shard_manager first.hash_key (suc n))).1.log
        key
        evs
        order
    → stored last (serve_traffic x traffic (new_shard_manager first.hash_key (suc n))).1 key
      ≡ some obj
    → pos 0 ≤ℤ later.now
    → IsInt64 obj.timestamp
    → Lasting later.now obj
    → (ws : WalSystem) × (system_run first.hash_key c o evs (new_wal_system first.hash_key (suc n))
        ≡ some ws)
      × (es : List Entry) × (recover c (files first.hash_key c o order ws) ≡ (es, done))
      × (stored later
            (recover_memory later later.now es (new_shard_manager later.hash_key (suc shards'))).1
            key
          ≡ some obj)
files-restart x c o first traffic last later n shards' evs order key obj t fine w e h i l =
    let sm = (serve_traffic x traffic (new_shard_manager first.hash_key (suc n))).1 in
    let d =
      serve_traffic-Durable x first traffic last (new_shard_manager first.hash_key (suc n)) t fine
        (new_shard_manager-Durable first (suc n)) in
    let (ws, ran, es, read, says) =
      logged-recover first.hash_key c o n evs order key w.survive w.of_shards w.once in
    (
      ws,
      ran,
      es,
      read,
      (restart-from last later sm es shards' key obj (says ∙ ap (λ log. logged log key) w.writes) d
          e h i l).1,
    )
