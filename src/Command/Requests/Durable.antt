-- ===== src/Command/Requests/Durable.antt =====
-- Requests to commander/ that are served one after the other: the agreement of the log and the
-- memory, and a restart.
use fleare.Prelude.{ℕ, suc, ◌≡◌, inl, inr, Option, some, List, [], ◌∷◌}
use fleare.Prelude.Int.{pos, ◌≤ℤ◌, IsInt64}
use fleare.Prelude.Bytes.{Bytes}
use fleare.Store.{Object}
use fleare.Exec.{Outcome, ok, err, crash}
use fleare.Exec.Keeps.{Keeps}
use fleare.Json.{Library}
use fleare.Shard.{Env, ShardManager, new_shard_manager, recover_memory}
use fleare.Shard.Recovery.{Lasting}
use fleare.Shard.Restart.{new_shard_manager-Durable, restart-keeps}
use fleare.Shard.Durable.{Durable, Agrees, Accepting, Gone-later}
use fleare.Shard.Access.{stored, logged}
use fleare.Command.Num.{number_incr, number_decr}
use fleare.Command.Durable.Expiry.{expire_key-Durable, ttl_key-Durable}
use fleare.Command.Durable.Texts.{
  set_key-Durable, get_key-Durable, delete_key-Durable, exists_func-Durable, str_set-Durable,
  str_get-Durable, str_append-Durable, str_length-Durable, str_range-Durable, number_set-Durable,
  number_get-Durable, number_step-Durable,
}
use fleare.Command.Durable.Lists.{
  list_set-Durable, list_push-Durable, list_iset-Durable, list_get-Durable, list_len-Durable,
  list_pop-Durable,
}
use fleare.Command.Durable.Maps.{
  map_set-Durable, map_cset-Durable, map_get-Durable, map_del-Durable,
}
use fleare.Command.Durable.Documents.{
  json_set-Durable, json_get-Durable, json_pget-Durable, json_ref_set-Durable, json_remove-Durable,
  json_add-Durable, json_merge-Durable, list_find-Durable,
}
use fleare.Command.Requests.{
  Name, set_name, get_name, delete_name, exists_name, expire_name, ttl_name, str_set_name,
  str_get_name, str_append_name, str_length_name, str_range_name, num_set_name, num_get_name,
  num_incr_name, num_decr_name, list_set_name, list_push_name, list_iset_name, list_get_name,
  list_len_name, list_pop_name, map_set_name, map_cset_name, map_get_name, map_del_name, handler,
  serve, unless_crash, list_find_name, json_set_name, json_get_name, json_pget_name,
  json_ref_set_name, json_remove_name, json_add_name, json_merge_name,
}

-- The log's channel takes what is sent, and the clock shows an int64.
abbrev pub Healthy : Env → Type 0
Healthy env = Accepting env × IsInt64 env.now

module _ (lib : Library) (env : Env) where
  pub handler-Durable :
      (name : Name) (args : List Bytes)
      → Healthy env
      → Keeps (Durable env) (handler lib name env args)
  unfolding number_incr number_decr
  handler-Durable set_name args (acc, clock) = set_key-Durable env acc args
  handler-Durable get_name args (acc, clock) = get_key-Durable env acc lib args
  handler-Durable delete_name args (acc, clock) = delete_key-Durable env acc args
  handler-Durable exists_name args (acc, clock) = exists_func-Durable env acc args
  handler-Durable ttl_name args (acc, clock) = ttl_key-Durable env args
  handler-Durable str_set_name args (acc, clock) = str_set-Durable env acc args
  handler-Durable str_get_name args (acc, clock) = str_get-Durable env acc args
  handler-Durable str_append_name args (acc, clock) = str_append-Durable env acc args
  handler-Durable str_length_name args (acc, clock) = str_length-Durable env acc args
  handler-Durable str_range_name args (acc, clock) = str_range-Durable env acc lib args
  handler-Durable num_set_name args (acc, clock) = number_set-Durable env acc lib args
  handler-Durable num_get_name args (acc, clock) = number_get-Durable env acc lib args
  handler-Durable list_set_name args (acc, clock) = list_set-Durable env lib acc args
  handler-Durable list_push_name args (acc, clock) = list_push-Durable env lib acc args
  handler-Durable list_iset_name args (acc, clock) = list_iset-Durable env lib acc args
  handler-Durable list_get_name args (acc, clock) = list_get-Durable env lib acc args
  handler-Durable list_len_name args (acc, clock) = list_len-Durable env lib acc args
  handler-Durable list_pop_name args (acc, clock) = list_pop-Durable env lib acc args
  handler-Durable map_set_name args (acc, clock) = map_set-Durable env lib acc args
  handler-Durable map_cset_name args (acc, clock) = map_cset-Durable env lib acc args
  handler-Durable map_get_name args (acc, clock) = map_get-Durable env lib acc args
  handler-Durable map_del_name args (acc, clock) = map_del-Durable env lib acc args
  handler-Durable list_find_name args (acc, clock) = list_find-Durable env lib args
  handler-Durable json_get_name args (acc, clock) = json_get-Durable env lib args
  handler-Durable json_pget_name args (acc, clock) = json_pget-Durable env lib args
  handler-Durable json_set_name args (acc, clock) = json_set-Durable env lib acc args
  handler-Durable json_ref_set_name args (acc, clock) = json_ref_set-Durable env lib acc args
  handler-Durable json_remove_name args (acc, clock) = json_remove-Durable env lib acc args
  handler-Durable json_add_name args (acc, clock) = json_add-Durable env lib acc args
  handler-Durable json_merge_name args (acc, clock) = json_merge-Durable env lib acc args
  handler-Durable expire_name args (acc, clock) = expire_key-Durable env args acc clock
  handler-Durable num_incr_name args (acc, clock) = number_step-Durable env acc lib lib.add args
  handler-Durable num_decr_name args (acc, clock) = number_step-Durable env acc lib lib.sub args

-- The log agrees for whoever reads the clock later and hashes keys in the same way.
pub Durable-later :
    (env env' : Env) (sm : ShardManager)
    → env'.hash_key ≡ env.hash_key
    → env.now ≤ℤ env'.now
    → Durable env sm
    → Durable env' sm
Durable-later env env' sm h t d = record {
  at = λ j. rw h (later (stored env sm j) (logged sm.log j) (d.at j));
}
  where
    later : (held said : Option Object) → Agrees env.now held said → Agrees env'.now held said
    later held said (inl e) = inl e
    later held said (inr (e, g)) = inr (e, Gone-later env.now env'.now said t g)

-- The clock does not go back from one request to the next, up to a last reading of it, and every
-- request finds the same hash of keys and a log that takes its entries.
abbrev pub Served : Env → List (Env × (Name × List Bytes)) → Env → Type 0
Served first [] last = (last.hash_key ≡ first.hash_key) × (first.now ≤ℤ last.now)
Served first ((env, call) ∷ requests) last =
    ((env.hash_key ≡ first.hash_key) × (first.now ≤ℤ env.now))
    × Healthy env
    × Served env requests last

Served-later :
    (first : Env) (requests : List (Env × (Name × List Bytes))) (last : Env) (sm : ShardManager)
    → Served first requests last
    → Durable first sm
    → Durable last sm
Served-later first [] last sm (h, t) d = Durable-later first last sm h t d
Served-later first ((env, call) ∷ requests) last sm ((h, t), healthy, rest) d =
    Served-later env requests last sm rest (Durable-later first env sm h t d)

-- What holds after a request holds after the further ones, or stays so, if it panicked.
unless_crash-Durable :
    (env last : Env) (next : ShardManager → ShardManager) (r : Outcome Bytes × ShardManager)
    → ((sm : ShardManager) → Durable env sm → Durable last sm)
    → ((sm : ShardManager) → Durable env sm → Durable last (next sm))
    → Durable env r.1
    → Durable last (unless_crash r next)
unless_crash-Durable env last next (ok reply, sm) stays goes d = goes sm d
unless_crash-Durable env last next (err e, sm) stays goes d = goes sm d
unless_crash-Durable env last next (crash, sm) stays goes d = stays sm d

-- Requests for the modelled commands but LIST.GPOP, however they end, keep the log and the memory
-- in agreement: if before them every key's shard holds what the log last says of the key, or
-- nothing where the time of what the log says has come, it is so after them. The log's channel
-- has to take every entry, the clock must not go back, and it shows int64 values. A panic ends the
-- process, and the agreement is then that of the state in which it stopped.
pub serve-Durable :
    (lib : Library) (first : Env) (requests : List (Env × (Name × List Bytes))) (last : Env)
    (sm : ShardManager)
    → Served first requests last
    → Durable first sm
    → Durable last (serve lib requests sm)
serve-Durable lib first [] last sm (h, t) d = Durable-later first last sm h t d
serve-Durable lib first ((env, (name, args)) ∷ requests) last sm ((h, t), healthy, rest) d =
    unless_crash-Durable env last (serve lib requests) (handler lib name env args sm)
      (λ sm'. Served-later env requests last sm' rest)
      (λ sm'. serve-Durable lib env requests last sm' rest)
      ((handler-Durable lib env name args healthy).at sm (Durable-later first env sm h t d))

-- After requests to a new server, a restart from the log they left brings back every object that
-- is stored under a key at the end and whose expiration, if it has one, is after the second of the
-- restart: the same value, kind and timestamp. The number of shards may have changed, one shard at
-- least is there after the restart, and the requests are as `Served` says.
serve-restart :
    (lib : Library) (first : Env) (requests : List (Env × (Name × List Bytes))) (last later : Env)
    (shards shards' : ℕ) (key : Bytes) (obj : Object)
    → Served first requests last
    → stored last (serve lib requests (new_shard_manager first.hash_key shards)) key ≡ some obj
    → pos 0 ≤ℤ later.now
    → IsInt64 obj.timestamp
    → Lasting later.now obj
    → stored later
        (recover_memory later later.now
          (serve lib requests (new_shard_manager first.hash_key shards)).log
          (new_shard_manager later.hash_key (suc shards'))).1
        key
      ≡ some obj
serve-restart lib first requests last later shards shards' key obj s e h i l =
    let sm = serve lib requests (new_shard_manager first.hash_key shards) in
    let d =
      serve-Durable lib first requests last (new_shard_manager first.hash_key shards) s
        (new_shard_manager-Durable first shards) in
    (restart-keeps last later sm shards' key obj d e h i l).1
