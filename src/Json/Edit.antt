-- ===== src/Json/Edit.antt =====
-- The functions of commander/json_cmd that change a JSON object: addNestedKey of json_add.go,
-- removeNestedKey of json_remove.go and mergeObjects of json_merge.go.
-- The Go functions change the object in place, and these return the changed object: the objects that
-- they are given are freshly decoded, so that nothing else holds a part of them.
pub mod Lookup
pub mod Paths
pub mod Merge
use fleare.Prelude.{Option, none, some, List, [], ◌∷◌}
use fleare.Prelude.Bytes.{Bytes}
use fleare.Json.{
  Value, Fields, null, nil_map, bool, num, str, arr, obj, end, field, get_field, set_field,
  delete_field,
}

-- The changed object behind a key goes back into the outer one.
abbrev pub put_back : {F : Type 0} → Bytes → Fields F → Option (Fields F) → Option (Fields F)
put_back k fs none = none
put_back k fs (some inner) = some (set_field k (obj inner) fs)

-- What is behind a key must be an object for the walk to go on; if nothing is there, `missing` says
-- what becomes of the outer object.
abbrev pub walk :
    {F : Type 0}
    → Bytes
    → Fields F
    → Option (Value F)
    → Option (Fields F)
    → (Fields F → Option (Fields F))
    → Option (Fields F)
walk k fs none missing next = missing
walk k fs (some (obj inner)) missing next = put_back k fs (next inner)
walk k fs (some v) missing next = none

module _ {F : Type 0} where
  -- addNestedKey on an object that is not nil; none is its error.
  unfoldable pub add_nested_key : List Bytes → Value F → Fields F → Option (Fields F)
  add_nested_key [] v fs = some fs
  add_nested_key (k ∷ []) v fs = some (set_field k v fs)
  add_nested_key (k ∷ key ∷ keys) v fs =
      walk k fs (get_field k fs) (put_back k fs (add_nested_key (key ∷ keys) v end))
        (add_nested_key (key ∷ keys) v)

  -- removeNestedKey on an object that is not nil; none is its error.
  unfoldable pub remove_nested_key : List Bytes → Fields F → Option (Fields F)
  remove_nested_key [] fs = some fs
  remove_nested_key (k ∷ []) fs = some (delete_field k fs)
  remove_nested_key (k ∷ key ∷ keys) fs =
      walk k fs (get_field k fs) (some fs) (remove_nested_key (key ∷ keys))

-- mergeObjects: the fields of the new object go into the existing one, and two objects under one
-- name are merged.
unfoldable mutual
  pub merge_value : {F : Type 0} → Option (Value F) → Value F → Value F
  merge_value (some (obj fs)) (obj gs) = obj (merge_objects fs gs)
  merge_value o v = v

  pub merge_objects : {F : Type 0} → Fields F → Fields F → Fields F
  merge_objects fs end = fs
  merge_objects fs (field k v gs) =
      merge_objects (set_field k (merge_value (get_field k fs) v) fs) gs
