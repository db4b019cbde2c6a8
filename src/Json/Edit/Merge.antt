-- ===== src/Json/Edit/Merge.antt =====
-- mergeObjects of commander/json_cmd/json_merge.go, field by field.
use fleare.Prelude.{◌≡◌, refl, ◌∙◌, Option, none, some, Bool-cases, inl, inr}
use fleare.Prelude.Bytes.{Bytes, same, same→eq}
use fleare.Json.{Value, Fields, obj, end, field, get_field, set_field}
use fleare.Json.Edit.{merge_value, merge_objects}
use fleare.Json.Edit.Lookup.{get_field-set_field}

-- Each name occurs once, as in a Go map.
abbrev pub Distinct : {F : Type 0} → Fields F → Type 0
Distinct end = Unit
Distinct (field k v fs) = (get_field k fs ≡ none) × Distinct fs

-- A field of the merged object, from those of the two objects.
abbrev pub merged : {F : Type 0} → Option (Value F) → Option (Value F) → Option (Value F)
merged o none = o
merged (some (obj fs)) (some (obj gs)) = some (obj (merge_objects fs gs))
merged o (some v) = some v

merged-some :
    {F : Type 0} (o : Option (Value F)) (v : Value F) → some (merge_value o v) ≡ merged o (some v)
unfolding merge_value
merged-some (some (obj fs)) (obj gs) = refl
merged-some _ _ = refl

module _ {F : Type 0} where
  -- A field of the merged object is the existing one where the new object has none of that name, and
  -- where it has, the merged object of the two if both are objects, and the new one if not. The new
  -- object has each name once.
  pub get_field-merge_objects :
      (j : Bytes) (fs gs : Fields F)
      → Distinct gs
      → get_field j (merge_objects fs gs) ≡ merged (get_field j fs) (get_field j gs)
  unfolding merge_objects get_field
  get_field-merge_objects j fs end d = refl
  get_field-merge_objects j fs (field k v gs) d =
      get_field-merge_objects j (set_field k (merge_value (get_field k fs) v) fs) gs d.1
      ∙ elim (Bool-cases (same k j)) [
        | inl one ↦
            rw (get_field-set_field k j (merge_value (get_field k fs) v) fs, one)
              (rw (← same→eq k j one, d.0) (merged-some (get_field k fs) v))
        | inr two ↦ rw (get_field-set_field k j (merge_value (get_field k fs) v) fs, two) refl
      ]
