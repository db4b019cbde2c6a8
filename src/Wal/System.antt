-- ===== src/Wal/System.antt =====
-- WALSystem of internal/wal/wal.go: a goroutine and a file for each shard, and the ring that chooses
-- the shard of a key. The files are new, and every channel has room.
mod Runs
pub mod Parts
pub mod Whole
use fleare.Prelude.{ℕ, Bool, Option, none, some, List, [], ◌∷◌}
use fleare.Prelude.Bytes.{Bytes}
use fleare.Prelude.Dict.{lookup, insert}
use fleare.Ring.{Ring, new_ring, add_nodes, get_node}
use fleare.Shard.{ids_from}
use fleare.Wal.{Entry, Codec, Options, WalShard, new_wal_shard, Event, send, turn, step, close}
use fleare.Wal.Recover.{Status, recover}

pub record WalSystem : Type 0 where
  pub chash : Ring
  pub shards : List (Bytes × WalShard)

abbrev pub new_shards : List Bytes → List (Bytes × WalShard)
new_shards [] = []
new_shards (id ∷ ids) = (id, new_wal_shard []) ∷ new_shards ids

-- NewWALSystem
unfoldable pub new_wal_system : (Bytes → ℕ) → ℕ → WalSystem
new_wal_system hash_key shard_count = record {
  chash = add_nodes hash_key (ids_from shard_count 0) new_ring;
  shards = new_shards (ids_from shard_count 0);
}

-- What happens next: an entry is sent by Put or Delete, or a goroutine makes a round.
pub data SystemEvent : Type 0 where
  write : Entry → SystemEvent
  round_of : Bytes → Bool → SystemEvent

module _ (hash_key : Bytes → ℕ) (codec : Codec) (o : Options) where
  abbrev pub put_shard : Bytes → WalSystem → WalShard → WalSystem
  put_shard id ws s = record ws { shards = insert id s ws.shards }

  -- enqueue behind GetShardByKey, which panics for a nil shard.
  abbrev pub enqueue : Bytes → Entry → WalSystem → Option WalShard → Option WalSystem
  enqueue id e ws none = none
  enqueue id e ws (some s) = some (put_shard id ws (step codec o s (send e)))

  -- There is a goroutine for each shard only.
  abbrev pub run_round : Bytes → Bool → WalSystem → Option WalShard → Option WalSystem
  run_round id late ws none = some ws
  run_round id late ws (some s) = some (put_shard id ws (step codec o s (turn late)))

  unfoldable pub system_step : WalSystem → SystemEvent → Option WalSystem
  system_step ws (write e) =
      let node = get_node hash_key e.key ws.chash in enqueue node e ws (lookup node ws.shards)
  system_step ws (round_of id late) = run_round id late ws (lookup id ws.shards)

  abbrev pub and_on : Option WalSystem → (WalSystem → Option WalSystem) → Option WalSystem
  and_on none next = none
  and_on (some ws) next = next ws

  unfoldable pub system_run : List SystemEvent → WalSystem → Option WalSystem
  system_run [] ws = some ws
  system_run (ev ∷ evs) ws = and_on (system_step ws ev) (system_run evs)

  -- The file of a shard after Close; without such a shard there is no file.
  abbrev pub closed_file : Option WalShard → Option Bytes
  closed_file none = none
  closed_file (some s) = some (close codec o s).file

  -- The files in the order of the iteration over the shards.
  abbrev pub files : List Bytes → WalSystem → List (Option Bytes)
  files [] ws = []
  files (id ∷ ids) ws = closed_file (lookup id ws.shards) ∷ files ids ws
