-- ===== src/Shard.antt =====
-- internal/shard/shard_manager.go and internal/shard/shard.go: the shards, the ring that assigns
-- keys to them, and the write-ahead log as the handlers see it, a list of the entries it took.
-- A shard's name, id and address are constants of its id and are left out.
mod Runs
pub mod Access
pub mod Durable
pub mod Recovery
pub mod Restart
use fleare.Prelude.{
  ℕ, zero, suc, ◌+◌, Bool, true, false, Option, none, some, List, [], ◌∷◌, ◌++◌, if◌then◌else◌,
  ◌==◌,
}
use fleare.Prelude.Int.{ℤ, pos, ◌-ℤ◌, ltb_ℤ, wrap64}
use fleare.Prelude.Bytes.{Bytes}
use fleare.Prelude.Dict.{lookup, insert}
use fleare.Prelude.Decimal.{itoa}
use fleare.Ring.{Ring, new_ring, add_node, add_nodes, get_node}
use fleare.Store
use fleare.Store.{Object, Memory, new_memory}
use fleare.Wal.{Entry, update_op, delete_op}
use fleare.Exec.{Outcome, ok, crash, Exec, pure, ◌>>=◌}

-- What a request finds: the hash of keys, the clock's second (a request is taken to read the same
-- second throughout), whether the log's channel takes the n-th write within its time limit, and the
-- configuration's `StrictMode`.
pub record Env : Type 0 where
  pub hash_key : Bytes → ℕ
  pub now : ℤ
  pub accepts : ℕ → Bool
  pub strict_mode : Bool

pub record ShardManager : Type 0 where
  pub ring : Ring
  pub shards : List (Bytes × Memory)
  pub log : List Entry
  pub write_count : ℕ

-- The ids "0", "1", … of the shards.
unfoldable pub ids_from : ℕ → ℕ → List Bytes
ids_from zero i = []
ids_from (suc n) i = itoa (pos i) ∷ ids_from n (i + 1)

abbrev pub empty_shards : List Bytes → List (Bytes × Memory)
empty_shards [] = []
empty_shards (id ∷ ids) = (id, new_memory) ∷ empty_shards ids

unfoldable pub new_shard_manager : (Bytes → ℕ) → ℕ → ShardManager
unfolding ids_from
new_shard_manager hash_key num_shards = record {
  ring = add_nodes hash_key (ids_from num_shards 0) new_ring;
  shards = empty_shards (ids_from num_shards 0);
  log = [];
  write_count = 0;
}

-- A method call on the shard of an id, which panics if the shard is nil.
abbrev pub call_on :
    {A : Type 0} → (Memory → A × Memory) → Bytes → Option Memory → Exec ShardManager A
call_on f id none sm = (crash, sm)
call_on f id (some m) sm =
    let (a, m') = f m in (ok a, record sm { shards = insert id m' sm.shards })

module _ (env : Env) where
  -- GetShardByKey; a nil shard is none.
  abbrev pub shard_by_key : Bytes → ShardManager → Option Memory
  shard_by_key key sm = lookup (get_node env.hash_key key sm.ring) sm.shards

  -- A method call on the memory of a key's shard.
  unfoldable pub on_shard : {A : Type 0} → Bytes → (Memory → A × Memory) → Exec ShardManager A
  on_shard key f sm = call_on f (get_node env.hash_key key sm.ring) (shard_by_key key sm) sm

  abbrev pub mem_get : Bytes → Exec ShardManager (Option Object)
  mem_get key = on_shard key (Store.get env.now key)

  abbrev pub mem_set : Bytes → Bytes → ℕ → Exec ShardManager (Unit {0})
  mem_set key value kind = on_shard key (λ m. (tt, Store.set key value kind m))

  abbrev pub mem_delete : Bytes → Exec ShardManager Bool
  mem_delete key = on_shard key (Store.delete key)

  -- WALSystem.enqueue: a write that the channel does not take in time is lost, and the handlers
  -- do not look at the error.
  unfoldable pub send_entry : Entry → Exec ShardManager (Unit {0})
  send_entry e sm = (
    ok tt,
    record sm {
      log = if env.accepts sm.write_count then sm.log ++ e ∷ [] else sm.log;
      write_count = sm.write_count + 1;
    },
  )

  abbrev pub wal_put : Bytes → Object → Exec ShardManager (Unit {0})
  wal_put key obj = send_entry (record { op = update_op; key = key; object = some obj })

  abbrev pub wal_delete : Bytes → Exec ShardManager (Unit {0})
  wal_delete key = send_entry (record { op = delete_op; key = key; object = none })

  -- The callback of RecoverMemory; the second reading of the clock is that of SetWithTTL.
  abbrev pub restore : ℤ → Bytes → Object → Memory → Memory
  restore later key obj m =
      if ltb_ℤ (pos 0) obj.timestamp
      then Store.set_with_ttl later key obj.value obj.kind (wrap64 (obj.timestamp -ℤ env.now)) m
      else Store.set key obj.value obj.kind m

  -- A deletion, an entry without an object, an entry with one.
  abbrev pub recover_as : ℤ → Bytes → Bool → Option Object → Exec ShardManager (Unit {0})
  recover_as later key true o = on_shard key (λ m. (tt, (Store.delete key m).1))
  recover_as later key false none = pure tt
  recover_as later key false (some obj) = on_shard key (λ m. (tt, restore later key obj m))

  unfoldable pub recover_entry : ℤ → Entry → Exec ShardManager (Unit {0})
  recover_entry later e = recover_as later e.key (e.op == delete_op) e.object

  unfoldable pub recover_memory : ℤ → List Entry → Exec ShardManager (Unit {0})
  unfolding recover_entry
  recover_memory later [] sm = (ok tt, sm)
  recover_memory later (e ∷ es) sm = (recover_entry later e >>= λ _. recover_memory later es) sm
