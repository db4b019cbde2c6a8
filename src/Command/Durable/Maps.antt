-- ===== src/Command/Durable/Maps.antt =====
-- The commands of commander/map_cmd: the agreement of the log and the memory.
use fleare.Prelude.{
  ℕ, ◌≡◌, refl, Bool, true, false, Option, none, some, List, [], ◌∷◌, ◌==◌, inl, inr, Option-cases,
  arith,
}
use fleare.Prelude.Bytes.{Bytes, same_refl}
use fleare.Prelude.Dict.{lookup, insert, lookup-insert}
use fleare.Store.{Object, Memory, delete}
use fleare.Wal.{update_op}
use fleare.Exec.{ok, ◌>>◌}
use fleare.Exec.Keeps.{Keeps, keeps_rules, Keeps-bind}
use fleare.Json.{Library, Value, Fields, fields, count_fields}
use fleare.Shard.{Env, ShardManager, shard_by_key, mem_delete, wal_put}
use fleare.Shard.Durable.{
  Durable, Accepting, on_shard-But, on_shard-crash, commit-But, commit-Durable,
}
use fleare.Shard.Access.{Local, stored-on_shard, shard_by_key-on_shard}
use fleare.Command.{save, plain}
use fleare.Command.Maps.{
  check_map_key, write_field, or_not_map, map_to_change, map_or_new, map_set, map_cset, read_field,
  map_value, map_field, map_get, store_object, drop_field, drop_from, map_del,
}
use fleare.Command.Durable.{
  set-Local, set-own, delete-Local, mem_get-Durable, save-Durable, remove-Durable,
}

check_map_key-Keeps : {P : ShardManager → Type 0} (mk : Bytes) → Keeps P (check_map_key mk)
check_map_key-Keeps [] = search keeps_rules
check_map_key-Keeps (c ∷ cs) = search keeps_rules

insert-Local : (key : Bytes) (o : Object) → Local {A = Unit {0}} key (λ m. (tt, insert key o m))
insert-Local key o m j n = ground (arith, lookup-insert key j o m)

insert-own : (key : Bytes) (o : Object) (m : Memory) → some o ≡ lookup key (insert key o m)
insert-own key o m = rw (lookup-insert key key o m, same_refl key)

module _ (env : Env) (lib : Library) where
  module _ {P : ShardManager → Type 0} where
    or_not_map-Keeps : (o : Option (Option (Fields lib.Float))) → Keeps P (or_not_map env lib o)
    or_not_map-Keeps none = search keeps_rules
    or_not_map-Keeps (some m) = search keeps_rules

    map_or_new-Keeps : (o : Option Object) → Keeps P (map_or_new env lib o)
    map_or_new-Keeps none = search keeps_rules
    map_or_new-Keeps (some o) = search (keeps_rules, or_not_map-Keeps)

    read_field-Keeps :
        (mk : Bytes) (m : Option (Option (Fields lib.Float))) → Keeps P (read_field env lib mk m)
    read_field-Keeps mk none = search keeps_rules
    read_field-Keeps mk (some m) = search (keeps_rules, check_map_key-Keeps)

    map_value-Keeps : (o : Option Object) → Keeps P (map_value env lib o)
    map_value-Keeps none = search keeps_rules
    map_value-Keeps (some o) = search keeps_rules

    map_field-Keeps : (mk : Bytes) (o : Option Object) → Keeps P (map_field env lib mk o)
    map_field-Keeps mk none = search keeps_rules
    map_field-Keeps mk (some o) = search read_field-Keeps

  module _ (acc : Accepting env) where
    write_field-Durable :
        (key mk : Bytes) (v : Value lib.Float) (m : Option (Fields lib.Float))
        → Keeps (Durable env) (write_field env lib key mk v m)
    write_field-Durable key mk v none = search keeps_rules
    write_field-Durable key mk v (some fs) = search (keeps_rules, save-Durable)

    pub map_set-Durable : (args : List Bytes) → Keeps (Durable env) (map_set env lib args)
    unfolding map_set
    map_set-Durable (key ∷ mk ∷ value ∷ []) =
        search
          (keeps_rules, mem_get-Durable, check_map_key-Keeps, map_or_new-Keeps, write_field-Durable)
    map_set-Durable _ = search keeps_rules

    -- What `Delete` leaves behind is logged again with what `Set` then stores.
    deleted_saved-Durable :
        (key value : Bytes) (kind : ℕ)
        → Keeps (Durable env) (mem_delete env key >> save env key value kind)
    unfolding save
    deleted_saved-Durable key value kind = record {
      at = λ sm d. elim (Option-cases (shard_by_key env key sm)) [
        | inl missing ↦ rw (on_shard-crash env key (delete key) sm missing) d
        | inr (m, found) ↦
            deleted key value kind sm (stored-on_shard env key (delete key) sm m found).0 (
              commit-But env _
                (record { op = update_op; key = key; object = some (plain value kind) })
                (mem_delete env key sm).1 (delete key m).1 acc (set-Local key value kind)
                (λ m said. set-own key value kind m)
                (shard_by_key-on_shard env key (delete key) sm m found)
                (on_shard-But env key (delete key) sm (delete-Local key) d))
      ];
    }
      where
        deleted :
            (key value : Bytes) (kind : ℕ) (sm : ShardManager) {b : Bool}
            → (mem_delete env key sm).0 ≡ ok b
            → Durable env (save env key value kind (mem_delete env key sm).1).1
            → Durable env ((mem_delete env key >> save env key value kind) sm).1
        deleted key value kind sm e d = rw e d

    pub map_cset-Durable : (args : List Bytes) → Keeps (Durable env) (map_cset env lib args)
    unfolding map_cset
    map_cset-Durable (key ∷ mk ∷ value ∷ []) =
        search (keeps_rules, check_map_key-Keeps, deleted_saved-Durable)
    map_cset-Durable _ = search keeps_rules

    pub map_get-Durable : (args : List Bytes) → Keeps (Durable env) (map_get env lib args)
    unfolding map_get
    map_get-Durable (key ∷ []) = search (keeps_rules, mem_get-Durable, map_value-Keeps)
    map_get-Durable (key ∷ mk ∷ []) = search (keeps_rules, mem_get-Durable, map_field-Keeps)
    map_get-Durable _ = search keeps_rules

    -- The object in the memory and the logged one are the same.
    replace-Durable :
        (key : Bytes) (o : Object)
        → Keeps (Durable env) (store_object env lib key o >> wal_put env key o)
    replace-Durable key o =
        commit-Durable env (λ m. (tt {0}, insert key o m))
          (record { op = update_op; key = key; object = some o }) acc (insert-Local key o)
          (λ m said. insert-own key o m)

    drop_if :
        (b : Bool) (key mk : Bytes) (o : Object) (m : Option (Fields lib.Float))
        → count_fields (fields m) == 1 ≡ b
        → Keeps (Durable env) (drop_field env lib key mk o m)
    drop_if true key mk o m e = rw e (search (keeps_rules, remove-Durable))
    drop_if false key mk o m e = rw e (search (keeps_rules, replace-Durable))

    drop_from-Durable :
        (key mk : Bytes) (o : Option Object) → Keeps (Durable env) (drop_from env lib key mk o)
    drop_from-Durable key mk none = search keeps_rules
    drop_from-Durable key mk (some o) =
        Keeps-bind (map_to_change env lib o) (drop_field env lib key mk o)
          (search (keeps_rules, or_not_map-Keeps))
          (λ m. drop_if (count_fields (fields m) == 1) key mk o m refl)

    pub map_del-Durable : (args : List Bytes) → Keeps (Durable env) (map_del env lib args)
    unfolding map_del
    map_del-Durable (key ∷ []) = search (keeps_rules, remove-Durable)
    map_del-Durable (key ∷ mk ∷ []) =
        search (keeps_rules, mem_get-Durable, check_map_key-Keeps, drop_from-Durable)
    map_del-Durable _ = search keeps_rules
