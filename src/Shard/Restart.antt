-- ===== src/Shard/Restart.antt =====
-- A restart: NewShardManager and then RecoverMemory of internal/shard/shard_manager.go, over the
-- log that an earlier run has left.
use fleare.Prelude.{
  ℕ, suc, ◌≡◌, refl, sym, ap, ◌∙◌, inl, inr, none, some, List, [], ◌∷◌, arith, All,
}
use fleare.Prelude.Int.{pos, ◌≤ℤ◌, IsInt64}
use fleare.Prelude.Bytes.{Bytes, same_refl}
use fleare.Prelude.Dict.{lookup}
use fleare.Store.{Object}
use fleare.Ring.Fill.{get_node-add_nodes}
use fleare.Exec.{ok}
use fleare.Shard.{Env, ShardManager, ids_from, empty_shards, new_shard_manager, recover_memory}
use fleare.Shard.Access.{or_empty, stored, logged, logged_after}
use fleare.Shard.Durable.{Agrees, Durable}
use fleare.Wal.{Entry}
use fleare.Shard.Recovery.{
  reloaded, reload, Routed, replayed-recover_memory, Lasting, lasting_stamp, past_stamp,
}

-- The id has a shard, and that is empty.
abbrev HasEmpty : List Bytes → Bytes → Type 0
HasEmpty ids id = lookup id (empty_shards ids) ≡ some []

HasEmpty-cons : (i : Bytes) (ids : List Bytes) (x : Bytes) → HasEmpty ids x → HasEmpty (i ∷ ids) x
unfolding lookup
HasEmpty-cons i ids x h = ground (arith, h)

All-HasEmpty-cons :
    (i : Bytes) (ids : List Bytes) (xs : List Bytes)
    → All (HasEmpty ids) xs
    → All (HasEmpty (i ∷ ids)) xs
unfolding lookup
All-HasEmpty-cons i ids [] a = tt
All-HasEmpty-cons i ids (x ∷ xs) a = (HasEmpty-cons i ids x a.0, All-HasEmpty-cons i ids xs a.1)

All-HasEmpty : (ids : List Bytes) → All (HasEmpty ids) ids
unfolding lookup
All-HasEmpty [] = tt
All-HasEmpty (i ∷ ids) = (rw (same_refl i) refl, All-HasEmpty-cons i ids ids (All-HasEmpty ids))

empty-lookup : (id : Bytes) (ids : List Bytes) → or_empty (lookup id (empty_shards ids)) ≡ []
unfolding lookup
empty-lookup id [] = refl
empty-lookup id (i ∷ ids) = ground (arith, empty-lookup id ids)

module _ (env : Env) where
  -- A new shard manager of one shard at least has a shard for every key, whatever the hash.
  pub new_shard_manager-Routed : (n : ℕ) → Routed env (new_shard_manager env.hash_key (suc n))
  unfolding new_shard_manager ids_from
  new_shard_manager-Routed n =
      let ids = ids_from (suc n) 0 in
      record {
        at = λ key. (
          [],
          get_node-add_nodes env.hash_key (HasEmpty ids) key _ _ (All-HasEmpty ids).0
              (All-HasEmpty ids).1,
        );
      }

  stored-new_shard_manager :
      (n : ℕ) (j : Bytes) → stored env (new_shard_manager env.hash_key n) j ≡ none
  unfolding new_shard_manager lookup
  stored-new_shard_manager n j = rw (empty-lookup _ (ids_from n 0)) refl

  pub new_shard_manager-Durable : (n : ℕ) → Durable env (new_shard_manager env.hash_key n)
  unfolding new_shard_manager logged_after
  new_shard_manager-Durable n = record { at = λ j. inl (stored-new_shard_manager n j) }

  -- After a restart in the second of `env`, a key has what the log says of it, reloaded.
  recovered :
      (n : ℕ) (j : Bytes) (es : List Entry)
      → ((recover_memory env env.now es (new_shard_manager env.hash_key (suc n))).0 ≡ ok tt)
        × (stored env (recover_memory env env.now es (new_shard_manager env.hash_key (suc n))).1 j
            ≡ reload env env.now (logged es j))
  recovered n j es =
      replayed-recover_memory env env.now es j (new_shard_manager env.hash_key (suc n)) none
        (new_shard_manager-Routed n) (stored-new_shard_manager (suc n) j)

reloaded-Lasting :
    (env : Env) (obj : Object)
    → pos 0 ≤ℤ env.now
    → IsInt64 obj.timestamp
    → Lasting env.now obj
    → reloaded env env.now obj ≡ obj
reloaded-Lasting env obj h i l =
    ap (λ t. record obj { timestamp = t }) (lasting_stamp env.now obj.timestamp h i l)

reloaded-past :
    (env : Env) (obj : Object)
    → pos 0 ≤ℤ env.now
    → IsInt64 env.now
    → IsInt64 obj.timestamp
    → obj.timestamp ≤ℤ env.now
    → reloaded env env.now obj ≡ record obj { timestamp = pos 0 }
reloaded-past env obj h k i l =
    ap (λ t. record obj { timestamp = t }) (past_stamp env.now obj.timestamp h i l k)

-- An object that is stored under a key, and that lasts, is there again after a restart from entries
-- that say of the key what the log says.
pub restart-from :
    (env later : Env) (sm : ShardManager) (es : List Entry) (n : ℕ) (j : Bytes) (obj : Object)
    → logged es j ≡ logged sm.log j
    → Durable env sm
    → stored env sm j ≡ some obj
    → pos 0 ≤ℤ later.now
    → IsInt64 obj.timestamp
    → Lasting later.now obj
    → ((recover_memory later later.now es (new_shard_manager later.hash_key (suc n))).0 ≡ ok tt)
      × (stored later
            (recover_memory later later.now es (new_shard_manager later.hash_key (suc n))).1
            j
          ≡ some obj)
restart-from env later sm es n j obj q d e h i l =
    let (done, after) = recovered later n j es in
    (
      done,
      after
          ∙ ap (reload later later.now) (q ∙ said (d.at j))
          ∙ ap some (reloaded-Lasting later obj h i l),
    )
  where
    said : Agrees env.now (stored env sm j) (logged sm.log j) → logged sm.log j ≡ some obj
    said (inl a) = sym a ∙ e
    said (inr (a, g)) = ground (arith, a, e)

-- An object that is stored under a key, and that lasts, is there again after a restart.
pub restart-keeps :
    (env later : Env) (sm : ShardManager) (n : ℕ) (j : Bytes) (obj : Object)
    → Durable env sm
    → stored env sm j ≡ some obj
    → pos 0 ≤ℤ later.now
    → IsInt64 obj.timestamp
    → Lasting later.now obj
    → ((recover_memory later later.now sm.log (new_shard_manager later.hash_key (suc n))).0 ≡ ok tt)
      × (stored later
            (recover_memory later later.now sm.log (new_shard_manager later.hash_key (suc n))).1
            j
          ≡ some obj)
restart-keeps env later sm n j obj d e h i l =
    restart-from env later sm sm.log n j obj refl d e h i l

-- If the log last says that a key has an object whose timestamp is not after the second of the
-- restart, the restart brings the object back as one that never expires.
pub restart-revives :
    (env later : Env) (sm : ShardManager) (n : ℕ) (j : Bytes) (obj : Object)
    → logged sm.log j ≡ some obj
    → pos 0 ≤ℤ later.now
    → IsInt64 later.now
    → IsInt64 obj.timestamp
    → obj.timestamp ≤ℤ later.now
    → stored later
        (recover_memory later later.now sm.log (new_shard_manager later.hash_key (suc n))).1
        j
      ≡ some (record obj { timestamp = pos 0 })
restart-revives env later sm n j obj e h k i l =
    (recovered later n j sm.log).1
    ∙ ap (reload later later.now) e
    ∙ ap some (reloaded-past later obj h k i l)
