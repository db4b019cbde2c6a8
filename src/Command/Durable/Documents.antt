-- ===== src/Command/Durable/Documents.antt =====
-- The commands of commander/json_cmd: the agreement of the log and the memory.
use fleare.Prelude.{Bool, true, false, Option, none, some, List, [], ◌∷◌}
use fleare.Prelude.Bytes.{Bytes}
use fleare.Store.{Object}
use fleare.Exec.{Exec}
use fleare.Exec.Keeps.{Keeps, keeps_rules, Keeps-bind, Keeps-then}
use fleare.Json.{Library, Value, Fields, null, bool, num, str, arr, obj, nil_map, get_field}
use fleare.Json.Path.{split}
use fleare.Shard.{Env, ShardManager}
use fleare.Shard.Durable.{Durable, Accepting}
use fleare.Command.Documents.{
  or_not_document, json_set, ref_data, ref_found, ref_to, ref_here, ref_below, resolve_reference,
  ref_next, ref_read, with_refs, reply_document, json_get, json_pget, or_no_reference,
  check_reference, with_reference, set_references, or_not_references, json_ref_set, store_or_fail,
  remove_from, json_remove, add_to, json_add, merge_new, merge_into, json_merge,
}
use fleare.Command.Find.{find_in_list, find_in, list_find}
use fleare.Command.Durable.{mem_get-Durable, save-Durable, remove-Durable}

module _ (env : Env) (lib : Library) where
  module _ {P : ShardManager → Type 0} where
    or_not_document-Keeps :
        (o : Option (Option (Fields lib.Float))) → Keeps P (or_not_document env lib o)
    or_not_document-Keeps none = search keeps_rules
    or_not_document-Keeps (some m) = search keeps_rules

    ref_data-Keeps :
        (k : Bytes) (fs : Fields lib.Float) (o : Option (Option (Fields lib.Float)))
        → Keeps P (ref_data env lib k fs o)
    ref_data-Keeps k fs none = search keeps_rules
    ref_data-Keeps k fs (some m) = search keeps_rules

    ref_found-Keeps :
        (k : Bytes) (fs : Fields lib.Float) (o : Option Object) → Keeps P (ref_found env lib k fs o)
    ref_found-Keeps k fs none = search keeps_rules
    ref_found-Keeps k fs (some o) = search ref_data-Keeps

    or_no_reference-Keeps : (o : Option Object) → Keeps P (or_no_reference env lib o)
    or_no_reference-Keeps none = search keeps_rules
    or_no_reference-Keeps (some o) = search keeps_rules

    or_not_references-Keeps :
        (o : Option (List (Bytes × Bytes))) → Keeps P (or_not_references env lib o)
    or_not_references-Keeps none = search keeps_rules
    or_not_references-Keeps (some refs) = search keeps_rules

  ref_to-Durable :
      (k : Bytes) (fs : Fields lib.Float) (o : Option Bytes)
      → Keeps (Durable env) (ref_to env lib k fs o)
  ref_to-Durable k fs none = search keeps_rules
  ref_to-Durable k fs (some key) = search (keeps_rules, mem_get-Durable, ref_found-Keeps)

  ref_here-Durable :
      (k : Bytes) (fs : Fields lib.Float) (o : Option (Value lib.Float))
      → Keeps (Durable env) (ref_here env lib k fs o)
  ref_here-Durable k fs none = search keeps_rules
  ref_here-Durable k fs (some (str s)) = search ref_to-Durable
  ref_here-Durable k fs (some null) = search keeps_rules
  ref_here-Durable k fs (some (bool x)) = search keeps_rules
  ref_here-Durable k fs (some (num x)) = search keeps_rules
  ref_here-Durable k fs (some (arr x)) = search keeps_rules
  ref_here-Durable k fs (some (obj x)) = search keeps_rules
  ref_here-Durable k fs (some nil_map) = search keeps_rules

  ref_below-Durable :
      (k : Bytes) (fs : Fields lib.Float) (o : Option (Value lib.Float))
      (next : Fields lib.Float → Exec ShardManager (Option (Fields lib.Float)))
      → ((inner : Fields lib.Float) → Keeps (Durable env) (next inner))
      → Keeps (Durable env) (ref_below env lib k fs o next)
  ref_below-Durable k fs none next h = search keeps_rules
  ref_below-Durable k fs (some (obj inner)) next h = search (keeps_rules, h inner)
  ref_below-Durable k fs (some (str s)) next h = search keeps_rules
  ref_below-Durable k fs (some null) next h = search keeps_rules
  ref_below-Durable k fs (some (bool x)) next h = search keeps_rules
  ref_below-Durable k fs (some (num x)) next h = search keeps_rules
  ref_below-Durable k fs (some (arr x)) next h = search keeps_rules
  ref_below-Durable k fs (some nil_map) next h = search keeps_rules

  resolve_reference-Durable :
      (keys : List Bytes) (fs : Fields lib.Float)
      → Keeps (Durable env) (resolve_reference env lib keys fs)
  unfolding resolve_reference
  resolve_reference-Durable [] fs = search keeps_rules
  resolve_reference-Durable (k ∷ []) fs = search ref_here-Durable
  resolve_reference-Durable (k ∷ key ∷ keys) fs =
      ref_below-Durable k fs (get_field k fs) (resolve_reference env lib (key ∷ keys))
        (λ inner. resolve_reference-Durable (key ∷ keys) inner)

  ref_next-Durable :
      (fs : Fields lib.Float) (next : Fields lib.Float → Exec ShardManager (Fields lib.Float))
      (o : Option (Fields lib.Float))
      → ((fs : Fields lib.Float) → Keeps (Durable env) (next fs))
      → Keeps (Durable env) (ref_next env lib fs next o)
  ref_next-Durable fs next none h = search keeps_rules
  ref_next-Durable fs next (some fs') h = h fs'

  ref_read-Durable :
      (refs : List Bytes) (fs : Fields lib.Float) → Keeps (Durable env) (ref_read env lib refs fs)
  unfolding ref_read
  ref_read-Durable [] fs = search keeps_rules
  ref_read-Durable (ref ∷ refs) fs =
      Keeps-bind (resolve_reference env lib (split b'.' ref) fs)
        (ref_next env lib fs (ref_read env lib refs))
        (resolve_reference-Durable (split b'.' ref) fs)
        (λ o. ref_next-Durable fs (ref_read env lib refs) o (λ fs'. ref_read-Durable refs fs'))

  with_refs-Durable :
      (refs : List Bytes) (m : Option (Fields lib.Float))
      → Keeps (Durable env) (with_refs env lib refs m)
  with_refs-Durable refs none = search keeps_rules
  with_refs-Durable refs (some fs) = search (keeps_rules, ref_read-Durable)

  reply_document-Durable :
      (args : List Bytes) (o : Option Object) → Keeps (Durable env) (reply_document env lib args o)
  reply_document-Durable args none = search keeps_rules
  reply_document-Durable [] (some o) = search keeps_rules
  reply_document-Durable (path ∷ refs) (some o) =
      search (keeps_rules, or_not_document-Keeps, with_refs-Durable)

  pub json_get-Durable : (args : List Bytes) → Keeps (Durable env) (json_get env lib args)
  unfolding json_get
  json_get-Durable [] = search keeps_rules
  json_get-Durable (key ∷ args) = search (keeps_rules, mem_get-Durable, reply_document-Durable)

  pub json_pget-Durable : (args : List Bytes) → Keeps (Durable env) (json_pget env lib args)
  unfolding json_pget
  json_pget-Durable [] = search keeps_rules
  json_pget-Durable (key ∷ []) = search (keeps_rules, mem_get-Durable, reply_document-Durable)
  json_pget-Durable (key ∷ path ∷ []) =
      search (keeps_rules, mem_get-Durable, reply_document-Durable)
  json_pget-Durable _ = search keeps_rules

  check_reference-Durable :
      (strict : Bool) (key : Bytes) → Keeps (Durable env) (check_reference env lib strict key)
  check_reference-Durable true key = search (keeps_rules, mem_get-Durable, or_no_reference-Keeps)
  check_reference-Durable false key = search keeps_rules

  set_references-Durable :
      (refs : List (Bytes × Bytes)) (m : Option (Fields lib.Float))
      → Keeps (Durable env) (set_references env lib refs m)
  unfolding set_references
  set_references-Durable [] m = search keeps_rules
  set_references-Durable ((path, key) ∷ refs) m =
      Keeps-then (check_reference env lib env.strict_mode key)
        (set_references env lib refs (with_reference env lib path key m))
        (check_reference-Durable env.strict_mode key)
        (set_references-Durable refs (with_reference env lib path key m))

  module _ (acc : Accepting env) where
    pub json_set-Durable : (args : List Bytes) → Keeps (Durable env) (json_set env lib args)
    unfolding json_set
    json_set-Durable [] = search keeps_rules
    json_set-Durable (key ∷ value ∷ []) = search (keeps_rules, save-Durable)
    json_set-Durable _ = search keeps_rules

    pub json_ref_set-Durable : (args : List Bytes) → Keeps (Durable env) (json_ref_set env lib args)
    unfolding json_ref_set
    json_ref_set-Durable [] = search keeps_rules
    json_ref_set-Durable (key ∷ value ∷ ref_object ∷ []) =
        search
          (
            keeps_rules, save-Durable, or_not_references-Keeps, or_not_document-Keeps,
            set_references-Durable,
          )
          depth 12
    json_ref_set-Durable _ = search keeps_rules

    store_or_fail-Durable :
        (key : Bytes) (o : Option (Value lib.Float))
        → Keeps (Durable env) (store_or_fail env lib key o)
    store_or_fail-Durable key none = search keeps_rules
    store_or_fail-Durable key (some v) = search (keeps_rules, save-Durable)

    remove_from-Durable :
        (key : Bytes) (args : List Bytes) (o : Option Object)
        → Keeps (Durable env) (remove_from env lib key args o)
    remove_from-Durable key args none = search keeps_rules
    remove_from-Durable key [] (some o) = search (keeps_rules, remove-Durable)
    remove_from-Durable key (path ∷ args) (some o) =
        search (keeps_rules, or_not_document-Keeps, store_or_fail-Durable)

    pub json_remove-Durable : (args : List Bytes) → Keeps (Durable env) (json_remove env lib args)
    unfolding json_remove
    json_remove-Durable [] = search keeps_rules
    json_remove-Durable (key ∷ args) = search (keeps_rules, mem_get-Durable, remove_from-Durable)

    add_to-Durable :
        (key path value : Bytes) (o : Option Object)
        → Keeps (Durable env) (add_to env lib key path value o)
    add_to-Durable key path value none = search store_or_fail-Durable
    add_to-Durable key path value (some o) =
        search (keeps_rules, or_not_document-Keeps, store_or_fail-Durable)

    pub json_add-Durable : (args : List Bytes) → Keeps (Durable env) (json_add env lib args)
    unfolding json_add
    json_add-Durable [] = search keeps_rules
    json_add-Durable (key ∷ path ∷ value ∷ []) =
        search (keeps_rules, mem_get-Durable, add_to-Durable)
    json_add-Durable _ = search keeps_rules

    merge_new-Durable :
        (key : Bytes) (fs : Fields lib.Float) (v : Value lib.Float)
        → Keeps (Durable env) (merge_new env lib key fs v)
    merge_new-Durable key fs (obj gs) = search (keeps_rules, save-Durable)
    merge_new-Durable key fs null = search keeps_rules
    merge_new-Durable key fs (bool x) = search keeps_rules
    merge_new-Durable key fs (num x) = search keeps_rules
    merge_new-Durable key fs (str x) = search keeps_rules
    merge_new-Durable key fs (arr x) = search keeps_rules
    merge_new-Durable key fs nil_map = search keeps_rules

    merge_into-Durable :
        (key value : Bytes) (o : Option Object)
        → Keeps (Durable env) (merge_into env lib key value o)
    merge_into-Durable key value none = search (keeps_rules, save-Durable)
    merge_into-Durable key value (some o) =
        search (keeps_rules, or_not_document-Keeps, merge_new-Durable)

    pub json_merge-Durable : (args : List Bytes) → Keeps (Durable env) (json_merge env lib args)
    unfolding json_merge
    json_merge-Durable [] = search keeps_rules
    json_merge-Durable (key ∷ value ∷ []) =
        search (keeps_rules, mem_get-Durable, merge_into-Durable)
    json_merge-Durable _ = search keeps_rules

-- LIST.FIND only reads.
module _ (env : Env) (lib : Library) where
  find_in_list-Keeps :
      {P : ShardManager → Type 0} (path : Bytes) (o : Option (Option (List (Value lib.Float))))
      → Keeps P (find_in_list lib env path o)
  find_in_list-Keeps path none = search keeps_rules
  find_in_list-Keeps path (some vs) = search keeps_rules

  find_in-Keeps :
      {P : ShardManager → Type 0} (path : Bytes) (o : Option Object)
      → Keeps P (find_in lib env path o)
  find_in-Keeps path none = search keeps_rules
  find_in-Keeps path (some o) = search (keeps_rules, find_in_list-Keeps)

  pub list_find-Durable : (args : List Bytes) → Keeps (Durable env) (list_find lib env args)
  unfolding list_find
  list_find-Durable [] = search keeps_rules
  list_find-Durable (key ∷ path ∷ []) = search (keeps_rules, mem_get-Durable, find_in-Keeps)
  list_find-Durable _ = search keeps_rules
