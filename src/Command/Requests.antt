-- ===== src/Command/Requests.antt =====
-- The commands of commander/ that are modelled, as requests that are served one after the other.
pub mod Durable
use fleare.Prelude.{List, [], ◌∷◌}
use fleare.Prelude.Bytes.{Bytes}
use fleare.Exec.{Outcome, ok, err, crash, Exec}
use fleare.Json.{Library}
use fleare.Shard.{Env, ShardManager}
use fleare.Command.{Handler}
use fleare.Command.Common.{set_key, get_key, delete_key, exists_func}
use fleare.Command.Expiry.{expire_key, ttl_key}
use fleare.Command.Text.{str_set, str_get, str_append, str_length, str_range}
use fleare.Command.Num.{number_set, number_get, number_incr, number_decr}
use fleare.Command.Lists.{list_set, list_push, list_iset, list_get, list_len, list_pop}
use fleare.Command.Documents.{
  json_set, json_get, json_pget, json_ref_set, json_remove, json_add, json_merge,
}
use fleare.Command.Find.{list_find}
use fleare.Command.Maps.{map_set, map_cset, map_get, map_del}

-- Every modelled command but LIST.GPOP.
pub data Name : Type 0 where
  set_name get_name delete_name exists_name expire_name ttl_name : Name
  str_set_name str_get_name str_append_name str_length_name str_range_name : Name
  num_set_name num_get_name num_incr_name num_decr_name : Name
  list_set_name list_push_name list_iset_name list_get_name list_len_name list_pop_name : Name
  list_find_name : Name
  map_set_name map_cset_name map_get_name map_del_name : Name
  json_set_name json_get_name json_pget_name json_ref_set_name json_remove_name : Name
  json_add_name json_merge_name : Name

abbrev pub unless_crash :
    Outcome Bytes × ShardManager → (ShardManager → ShardManager) → ShardManager
unless_crash (ok reply, sm) next = next sm
unless_crash (err e, sm) next = next sm
unless_crash (crash, sm) next = sm

module _ (lib : Library) where
  abbrev pub handler : Name → Env → Handler
  handler set_name env = set_key env
  handler get_name env = get_key env lib
  handler delete_name env = delete_key env
  handler exists_name env = exists_func env
  handler expire_name env = expire_key env
  handler ttl_name env = ttl_key env
  handler str_set_name env = str_set env
  handler str_get_name env = str_get env
  handler str_append_name env = str_append env
  handler str_length_name env = str_length env
  handler str_range_name env = str_range env lib
  handler num_set_name env = number_set env lib
  handler num_get_name env = number_get env lib
  handler num_incr_name env = number_incr env lib
  handler num_decr_name env = number_decr env lib
  handler list_set_name env = list_set env lib
  handler list_push_name env = list_push env lib
  handler list_iset_name env = list_iset env lib
  handler list_get_name env = list_get env lib
  handler list_len_name env = list_len env lib
  handler list_pop_name env = list_pop env lib
  handler map_set_name env = map_set env lib
  handler map_cset_name env = map_cset env lib
  handler map_get_name env = map_get env lib
  handler map_del_name env = map_del env lib
  handler list_find_name env = list_find lib env
  handler json_set_name env = json_set env lib
  handler json_get_name env = json_get env lib
  handler json_pget_name env = json_pget env lib
  handler json_ref_set_name env = json_ref_set env lib
  handler json_remove_name env = json_remove env lib
  handler json_add_name env = json_add env lib
  handler json_merge_name env = json_merge env lib

  -- The requests with what each of them finds, in the order in which they are served. A panic ends
  -- the process, and none is served after it.
  abbrev pub serve : List (Env × (Name × List Bytes)) → ShardManager → ShardManager
  serve [] sm = sm
  serve ((env, (name, args)) ∷ requests) sm =
      unless_crash (handler name env args sm) (serve requests)
