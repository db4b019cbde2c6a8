-- ===== src/Command/Maps.antt =====
-- commander/map_cmd: MAP.SET, MAP.CSET, MAP.GET and MAP.DEL.
use fleare.Prelude.{Option, none, some, [], ◌∷◌, ◌==◌, if◌then◌else◌}
use fleare.Prelude.Bytes.{Bytes}
use fleare.Prelude.Dict.{insert}
use fleare.Store.{Object, map_kind}
use fleare.Exec.{
  Exec, pure, fail, panic, require, invalid_args, invalid_value, invalid_character, ◌>>=◌, ◌>>◌,
}
use fleare.Json.{
  Library, Value, Fields, end, get_field, set_field, delete_field, count_fields, fields, as_map,
  of_map, marshalled, ensure_unmarshal,
}
use fleare.Shard.{Env, ShardManager, on_shard, mem_get, mem_delete, wal_put}
use fleare.Command.{Handler, check_key, save, remove}

-- utils.IsValidString; where it fails, the handlers call `Error` of a nil error and panic.
abbrev pub check_map_key : Bytes → Exec ShardManager (Unit {0})
check_map_key [] = panic
check_map_key (c ∷ cs) = pure tt

module _ (env : Env) (lib : Library) where
  abbrev pub map_bytes : Option (Fields lib.Float) → Bytes
  map_bytes m = marshalled lib (of_map m)

  abbrev pub decoded_map : Object → Option (Option (Fields lib.Float))
  decoded_map o = as_map (lib.unmarshal o.value)

  -- mapSetKey; writing to a nil map panics.
  abbrev pub write_field :
      Bytes → Bytes → Value lib.Float → Option (Fields lib.Float) → Exec ShardManager Bytes
  write_field key mk v none = panic
  write_field key mk v (some fs) =
      save env key (map_bytes (some (set_field mk v fs))) map_kind >> pure []

  abbrev pub or_not_map :
      Option (Option (Fields lib.Float)) → Exec ShardManager (Option (Fields lib.Float))
  or_not_map none = fail invalid_character
  or_not_map (some m) = pure m

  abbrev pub map_to_change : Object → Exec ShardManager (Option (Fields lib.Float))
  map_to_change o = do
    m ← or_not_map (decoded_map o)
    require (o.kind == map_kind) invalid_value
    pure m

  abbrev pub map_or_new : Option Object → Exec ShardManager (Option (Fields lib.Float))
  map_or_new none = pure (some end)
  map_or_new (some o) = map_to_change o

  unfoldable pub map_set : Handler
  map_set (key ∷ mk ∷ value ∷ []) = do
    check_key key
    check_map_key mk
    o ← mem_get env key
    m ← map_or_new o
    write_field key mk (ensure_unmarshal lib value) m
  map_set _ = fail invalid_args

  -- mapCSetKey
  abbrev pub replace_by : Bytes → Bytes → Exec ShardManager (Unit {0})
  replace_by key value = mem_delete env key >> save env key value map_kind

  unfoldable pub map_cset : Handler
  map_cset (key ∷ mk ∷ value ∷ []) = do
    check_key key
    check_map_key mk
    replace_by key (map_bytes (some (set_field mk (ensure_unmarshal lib value) end)))
    pure []
  map_cset _ = fail invalid_args

  -- mapGetKey
  abbrev pub field_reply : Option (Value lib.Float) → Bytes
  field_reply none = []
  field_reply (some v) = marshalled lib v

  abbrev pub read_field : Bytes → Option (Option (Fields lib.Float)) → Exec ShardManager Bytes
  read_field mk none = fail invalid_character
  read_field mk (some m) = check_map_key mk >> pure (field_reply (get_field mk (fields m)))

  abbrev pub map_value : Option Object → Exec ShardManager Bytes
  map_value none = pure []
  map_value (some o) = pure o.value

  abbrev pub map_field : Bytes → Option Object → Exec ShardManager Bytes
  map_field mk none = pure []
  map_field mk (some o) = read_field mk (decoded_map o)

  unfoldable pub map_get : Handler
  map_get (key ∷ []) = do check_key key; o ← mem_get env key; map_value o
  map_get (key ∷ mk ∷ []) = do check_key key; o ← mem_get env key; map_field mk o
  map_get _ = fail invalid_args

  -- mapDeleteKey: the object that the map holds is changed in place and logged.
  abbrev pub store_object : Bytes → Object → Exec ShardManager (Unit {0})
  store_object key o = on_shard env key (λ m. (tt, insert key o m))

  abbrev pub without_field : Bytes → Option (Fields lib.Float) → Option (Fields lib.Float)
  without_field mk none = none
  without_field mk (some fs) = some (delete_field mk fs)

  abbrev pub drop_field :
      Bytes → Bytes → Object → Option (Fields lib.Float) → Exec ShardManager Bytes
  drop_field key mk o m =
      if count_fields (fields m) == 1
      then (remove env key >> pure [])
      else let o' = record o { value = map_bytes (without_field mk m) } in
        (store_object key o' >> wal_put env key o' >> pure [])

  abbrev pub drop_from : Bytes → Bytes → Option Object → Exec ShardManager Bytes
  drop_from key mk none = pure []
  drop_from key mk (some o) = map_to_change o >>= drop_field key mk o

  unfoldable pub map_del : Handler
  map_del (key ∷ []) = do check_key key; remove env key; pure []
  map_del (key ∷ mk ∷ []) = do
    check_key key
    check_map_key mk
    o ← mem_get env key
    drop_from key mk o
  map_del _ = fail invalid_args
