-- ===== src/Json/Edit/Lookup.antt =====
-- The fields of a JSON object (commander/json_cmd) as a map: what a write and a deletion change.
use fleare.Prelude.{◌≡◌, refl, none, some, if◌then◌else◌, arith}
use fleare.Prelude.Bytes.{Bytes, same, same_iff}
use fleare.Json.{Value, Fields, end, field, get_field, set_field, delete_field}

module _ {F : Type 0} where
  pub get_field-set_field :
      (k j : Bytes) (v : Value F) (fs : Fields F)
      → get_field j (set_field k v fs) ≡ (if same k j then some v else get_field j fs)
  unfolding get_field set_field
  get_field-set_field k j v end = refl
  get_field-set_field k j v (field i w fs) =
      ground (arith, get_field-set_field k j v fs, same_iff i k, same_iff i j, same_iff k j)

  pub get_field-delete_field :
      (k j : Bytes) (fs : Fields F)
      → get_field j (delete_field k fs) ≡ (if same k j then none else get_field j fs)
  unfolding get_field delete_field
  get_field-delete_field k j end = ground arith
  get_field-delete_field k j (field i w fs) =
      ground (arith, get_field-delete_field k j fs, same_iff i k, same_iff i j, same_iff k j)
