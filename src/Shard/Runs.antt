-- ===== src/Shard/Runs.antt =====
-- The theorems on internal/shard/shard_manager.go at two shards.
use fleare.Prelude.{
  false, ℕ, suc, ◌≡◌, refl, inl, inr, true, Option, none, some, List, [], ◌∷◌, if◌then◌else◌, arith,
}
use fleare.Prelude.Int.{pos}
use fleare.Prelude.Bytes.{Bytes}
use fleare.Store.{Object}
use fleare.Wal.{update_op}
use fleare.Exec.{ok}
use fleare.Shard.{Env, ShardManager, new_shard_manager, recover_memory}
use fleare.Shard.Access.{stored, logged_after}
use fleare.Shard.Recovery.{reload, Routed, replayed-recover_memory}
use fleare.Shard.Restart.{new_shard_manager-Routed, restart-revives}

abbrev at_second : ℕ → Env
at_second n = record {
  hash_key = λ key. elim key [ [] ↦ 0 | c ∷ cs ↦ c ];
  now = pos n;
  accepts = λ i. true;
  strict_mode = false;
}

abbrev a_key : Bytes
a_key = b'a' ∷ []

abbrev until_150 : Object
until_150 = record { value = 1 ∷ []; kind = 0; timestamp = pos 150 }

-- One key stored and logged, on the single shard "0".
abbrev one_key : ShardManager
one_key = record {
  ring = (new_shard_manager (at_second 0).hash_key 1).ring;
  shards = (b'0' ∷ [], (a_key, until_150) ∷ []) ∷ [];
  log = record { op = update_op; key = a_key; object = some until_150 } ∷ [];
  write_count = 1;
}

new_shard_manager-Routed_example : Routed (at_second 5) (new_shard_manager (at_second 5).hash_key 2)
new_shard_manager-Routed_example = new_shard_manager-Routed (at_second 5) 1

replayed-recover_memory_example :
    ((recover_memory
        (at_second 5)
        (pos 5)
        one_key.log
        (new_shard_manager (at_second 5).hash_key 2)).0
      ≡ ok tt)
    × (stored
          (at_second 5)
          (recover_memory
            (at_second 5)
            (pos 5)
            one_key.log
            (new_shard_manager (at_second 5).hash_key 2)).1
          a_key
        ≡ reload (at_second 5) (pos 5) (logged_after none one_key.log a_key))
unfolding fleare.Prelude.Dict.lookup new_shard_manager fleare.Prelude.Bytes.same
    fleare.Prelude.Decimal.itoa fleare.Ring.get_node fleare.Ring.add_nodes fleare.Ring.add_node
    fleare.Ring.sort fleare.Ring.search fleare.Ring.search_loop
replayed-recover_memory_example =
    replayed-recover_memory (at_second 5) (pos 5) one_key.log a_key
      (new_shard_manager (at_second 5).hash_key 2) none (new_shard_manager-Routed (at_second 5) 1)
      refl

restart-revives_example :
    stored
      (at_second 200)
      (recover_memory
        (at_second 200)
        (pos 200)
        one_key.log
        (new_shard_manager (at_second 200).hash_key 2)).1
      a_key
    ≡ some (record until_150 { timestamp = pos 0 })
unfolding logged_after fleare.Prelude.Bytes.same
restart-revives_example =
    restart-revives (at_second 100) (at_second 200) one_key 1 a_key until_150 refl (omega arith)
      (omega arith, omega arith) (omega arith, omega arith) (omega arith)
