-- ===== src/Command/Documents.antt =====
-- commander/json_cmd: JSON.SET, JSON.GET, JSON.PGET, JSON.SETREF, JSON.REMOVE, JSON.ADD, JSON.MERGE.
-- The references of JSON.SETREF are a Go map, which the handler goes through in no fixed order; here
-- they come in the order of the decoded text.
use fleare.Prelude.{Bool, true, false, Option, none, some, List, [], ◌∷◌, ◌++◌, ◌==◌}
use fleare.Prelude.Bytes.{Bytes, codes, trim_prefix}
use fleare.Store.{Object, json_kind}
use fleare.Exec.{
  Exec, pure, fail, require, invalid_args, invalid_key, invalid_value, invalid_character,
  invalid_reference, other_error, ◌>>=◌, ◌>>◌,
}
use fleare.Json.{
  Library, Value, Fields, null, str, obj, nil_map, end, field, get_field, set_field, fields, as_map,
  or_null, object_to_byte, ensure_unmarshal,
}
use fleare.Json.Path.{split, read_nested_key}
use fleare.Json.Edit.{put_back, add_nested_key, remove_nested_key, merge_objects}
use fleare.Shard.{Env, ShardManager, mem_get}
use fleare.Command.{Handler, check_key, save, remove}

-- A map as an `any`.
abbrev pub whole : {F : Type 0} → Option (Fields F) → Value F
whole none = nil_map
whole (some fs) = obj fs

-- readNestedKey of json_get.go; the empty path is the whole object.
abbrev pub read_path : {F : Type 0} → Bytes → Option (Fields F) → Option (Value F)
read_path [] m = some (whole m)
read_path (c ∷ cs) m = read_nested_key (split b'.' (c ∷ cs)) (fields m)

abbrev pub ref_prefix : Bytes
ref_prefix = codes "$ref:"

-- json.Unmarshal into a `map[string]string`; null as a value makes the empty string.
abbrev pub string_field : {F : Type 0} → Bytes → Value F → Option (Bytes × Bytes)
string_field k (str s) = some (k, s)
string_field k null = some (k, [])
string_field k v = none

abbrev pub both :
    Option (Bytes × Bytes) → Option (List (Bytes × Bytes)) → Option (List (Bytes × Bytes))
both (some e) (some es) = some (e ∷ es)
both o os = none

abbrev pub string_fields : {F : Type 0} → Fields F → Option (List (Bytes × Bytes))
string_fields end = some []
string_fields (field k v fs) = both (string_field k v) (string_fields fs)

abbrev pub as_string_map : {F : Type 0} → Option (Value F) → Option (List (Bytes × Bytes))
as_string_map (some (obj fs)) = string_fields fs
as_string_map (some null) = some []
as_string_map o = none

module _ (env : Env) (lib : Library) where
  -- `ObjectToByte` of the object, which is stored, logged and replied.
  abbrev pub store_document : Bytes → Value lib.Float → Exec ShardManager Bytes
  store_document key v =
      save env key (object_to_byte lib v) json_kind >> pure (object_to_byte lib v)

  abbrev pub document : Object → Option (Option (Fields lib.Float))
  document o = as_map (lib.unmarshal o.value)

  abbrev pub or_not_document :
      Option (Option (Fields lib.Float)) → Exec ShardManager (Option (Fields lib.Float))
  or_not_document none = fail invalid_character
  or_not_document (some m) = pure m

  abbrev pub check_json : Object → Exec ShardManager (Unit {0})
  check_json o = require (o.kind == json_kind) invalid_value

  -- jsonSetFunc
  unfoldable pub json_set : Handler
  json_set [] = fail invalid_key
  json_set (key ∷ value ∷ []) = do
    check_key key
    require (lib.valid value) invalid_value
    save env key value json_kind
    pure []
  json_set _ = fail invalid_args

  -- resolveReference: what it changes the object into; none is its error, and then nothing changed.
  abbrev pub ref_data :
      Bytes
      → Fields lib.Float
      → Option (Option (Fields lib.Float))
      → Exec ShardManager (Option (Fields lib.Float))
  ref_data k fs none = pure none
  ref_data k fs (some m) = pure (some (set_field (b'_' ∷ k) (whole m) fs))

  abbrev pub ref_found :
      Bytes → Fields lib.Float → Option Object → Exec ShardManager (Option (Fields lib.Float))
  ref_found k fs none = pure none
  ref_found k fs (some o) = ref_data k fs (document o)

  abbrev pub ref_to :
      Bytes → Fields lib.Float → Option Bytes → Exec ShardManager (Option (Fields lib.Float))
  ref_to k fs none = pure (some fs)
  ref_to k fs (some key) = mem_get env key >>= ref_found k fs

  abbrev pub ref_here :
      Bytes
      → Fields lib.Float
      → Option (Value lib.Float)
      → Exec ShardManager (Option (Fields lib.Float))
  ref_here k fs none = pure none
  ref_here k fs (some (str s)) = ref_to k fs (trim_prefix ref_prefix s)
  ref_here k fs (some v) = pure (some fs)

  abbrev pub ref_below :
      Bytes
      → Fields lib.Float
      → Option (Value lib.Float)
      → (Fields lib.Float → Exec ShardManager (Option (Fields lib.Float)))
      → Exec ShardManager (Option (Fields lib.Float))
  ref_below k fs (some (obj inner)) next = next inner >>= λ r. pure (put_back k fs r)
  ref_below k fs o next = pure none

  unfoldable pub resolve_reference :
      List Bytes → Fields lib.Float → Exec ShardManager (Option (Fields lib.Float))
  unfolding trim_prefix
  resolve_reference [] fs = pure (some fs)
  resolve_reference (k ∷ []) fs = ref_here k fs (get_field k fs)
  resolve_reference (k ∷ key ∷ keys) fs =
      ref_below k fs (get_field k fs) (resolve_reference (key ∷ keys))

  -- refRead: the first error ends it, and what was resolved before stays.
  abbrev pub ref_next :
      Fields lib.Float
      → (Fields lib.Float → Exec ShardManager (Fields lib.Float))
      → Option (Fields lib.Float)
      → Exec ShardManager (Fields lib.Float)
  ref_next fs next none = pure fs
  ref_next fs next (some fs') = next fs'

  unfoldable pub ref_read : List Bytes → Fields lib.Float → Exec ShardManager (Fields lib.Float)
  unfolding resolve_reference
  ref_read [] fs = pure fs
  ref_read (ref ∷ refs) fs = resolve_reference (split b'.' ref) fs >>= ref_next fs (ref_read refs)

  -- A nil map has none of the references.
  abbrev pub with_refs :
      List Bytes → Option (Fields lib.Float) → Exec ShardManager (Option (Fields lib.Float))
  with_refs refs none = pure none
  with_refs refs (some fs) = ref_read refs fs >>= λ fs'. pure (some fs')

  -- jsonGetFunc and jsonPGetFunc behind `Get`.
  abbrev pub reply_document : List Bytes → Option Object → Exec ShardManager Bytes
  reply_document args none = pure []
  reply_document [] (some o) = check_json o >> pure o.value
  reply_document (path ∷ refs) (some o) = do
    check_json o
    m ← or_not_document (document o)
    m' ← with_refs refs m
    pure (object_to_byte lib (or_null (read_path path m')))

  unfoldable pub json_get : Handler
  unfolding ref_read
  json_get [] = fail invalid_key
  json_get (key ∷ args) = do check_key key; o ← mem_get env key; reply_document args o

  unfoldable pub json_pget : Handler
  unfolding ref_read
  json_pget [] = fail invalid_key
  json_pget (key ∷ []) = do check_key key; o ← mem_get env key; reply_document [] o
  json_pget (key ∷ path ∷ []) = do check_key key; o ← mem_get env key; reply_document (path ∷ []) o
  json_pget _ = fail invalid_args

  -- jsonRefSetFunc: in strict mode the key that is referred to must be there.
  abbrev pub or_no_reference : Option Object → Exec ShardManager (Unit {0})
  or_no_reference none = fail invalid_reference
  or_no_reference (some o) = pure tt

  abbrev pub check_reference : Bool → Bytes → Exec ShardManager (Unit {0})
  check_reference true key = mem_get env key >>= or_no_reference
  check_reference false key = pure tt

  -- The result of `addNestedKey` is dropped: a nil map stays nil, and an error is not seen.
  abbrev pub kept_or : Fields lib.Float → Option (Fields lib.Float) → Fields lib.Float
  kept_or fs none = fs
  kept_or fs (some fs') = fs'

  abbrev pub with_reference : Bytes → Bytes → Option (Fields lib.Float) → Option (Fields lib.Float)
  with_reference path key none = none
  with_reference path key (some fs) =
      some (kept_or fs (add_nested_key (split b'.' path) (str (ref_prefix ++ key)) fs))

  unfoldable pub set_references :
      List (Bytes × Bytes)
      → Option (Fields lib.Float)
      → Exec ShardManager (Option (Fields lib.Float))
  set_references [] m = pure m
  set_references ((path, key) ∷ refs) m =
      check_reference env.strict_mode key >> set_references refs (with_reference path key m)

  abbrev pub or_not_references :
      Option (List (Bytes × Bytes)) → Exec ShardManager (List (Bytes × Bytes))
  or_not_references none = fail invalid_character
  or_not_references (some refs) = pure refs

  unfoldable pub json_ref_set : Handler
  unfolding set_references
  json_ref_set [] = fail invalid_key
  json_ref_set (key ∷ value ∷ ref_object ∷ []) = do
    check_key key
    require (lib.valid value) invalid_value
    require (lib.valid ref_object) invalid_value
    refs ← or_not_references (as_string_map (lib.unmarshal ref_object))
    m ← or_not_document (as_map (lib.unmarshal value))
    m' ← set_references refs m
    store_document key (whole m')
    pure []
  json_ref_set _ = fail invalid_args

  -- jsonRemoveFunc
  abbrev pub remove_path : Bytes → Option (Fields lib.Float) → Option (Value lib.Float)
  remove_path path none = some nil_map
  remove_path path (some fs) = elim (remove_nested_key (split b'.' path) fs) [
    | none ↦ none
    | some fs' ↦ some (obj fs')
  ]

  abbrev pub store_or_fail : Bytes → Option (Value lib.Float) → Exec ShardManager Bytes
  store_or_fail key none = fail other_error
  store_or_fail key (some v) = store_document key v

  abbrev pub remove_from : Bytes → List Bytes → Option Object → Exec ShardManager Bytes
  remove_from key args none = pure []
  remove_from key [] (some o) = check_json o >> remove env key >> pure []
  remove_from key (path ∷ args) (some o) = do
    check_json o
    m ← or_not_document (document o)
    store_or_fail key (remove_path path m)

  unfoldable pub json_remove : Handler
  json_remove [] = fail invalid_key
  json_remove (key ∷ args) = do check_key key; o ← mem_get env key; remove_from key args o

  -- jsonAddFunc; addNestedKey makes a new object of a nil one.
  abbrev pub add_path :
      Bytes → Value lib.Float → Option (Fields lib.Float) → Option (Value lib.Float)
  add_path path v m = elim (add_nested_key (split b'.' path) v (fields m)) [
    | none ↦ none
    | some fs ↦ some (obj fs)
  ]

  abbrev pub add_to : Bytes → Bytes → Bytes → Option Object → Exec ShardManager Bytes
  add_to key path value none = store_or_fail key (add_path path (ensure_unmarshal lib value) none)
  add_to key path value (some o) = do
    check_json o
    m ← or_not_document (document o)
    store_or_fail key (add_path path (ensure_unmarshal lib value) m)

  unfoldable pub json_add : Handler
  json_add [] = fail invalid_key
  json_add (key ∷ path ∷ value ∷ []) = do
    check_key key
    o ← mem_get env key
    add_to key path value o
  json_add _ = fail invalid_args

  -- jsonMergeFunc; a missing key takes any value.
  abbrev pub merge_new : Bytes → Fields lib.Float → Value lib.Float → Exec ShardManager Bytes
  merge_new key fs (obj gs) = store_document key (obj (merge_objects fs gs))
  merge_new key fs v = fail invalid_value

  abbrev pub merge_into : Bytes → Bytes → Option Object → Exec ShardManager Bytes
  merge_into key value none = store_document key (ensure_unmarshal lib value)
  merge_into key value (some o) = do
    check_json o
    m ← or_not_document (document o)
    merge_new key (fields m) (ensure_unmarshal lib value)

  unfoldable pub json_merge : Handler
  json_merge [] = fail invalid_key
  json_merge (key ∷ value ∷ []) = do check_key key; o ← mem_get env key; merge_into key value o
  json_merge _ = fail invalid_args
