-- ===== src/Json/Runs.antt =====
-- The theorems on the changing of JSON objects, at small objects.
use fleare.Prelude.{ℕ, ◌≡◌, refl, inl, inr, none, some, [], ◌∷◌}
use fleare.Prelude.Bytes.{Bytes, same}
use fleare.Json.{Value, Fields, num, obj, end, field, get_field}
use fleare.Json.Path.{read_nested_key}
use fleare.Json.Edit.{add_nested_key, remove_nested_key, merge_objects}
use fleare.Json.Edit.Paths.{read-add_nested_key, read-remove_nested_key}
use fleare.Json.Edit.Merge.{get_field-merge_objects}

abbrev a : Bytes
a = b'a' ∷ []

abbrev b : Bytes
b = b'b' ∷ []

-- {"a": {"b": 1}}
abbrev nested : Fields ℕ
nested = field a (obj (field b (num 1) end)) end

-- {"a": {"b": 1, "a": 2}}
abbrev nested_more : Fields ℕ
nested_more = field a (obj (field b (num 1) (field a (num 2) end))) end

read-add_nested_key_example :
    (read_nested_key (a ∷ a ∷ []) nested_more ≡ some (num 2))
    × (read_nested_key (a ∷ b ∷ []) nested_more ≡ read_nested_key (a ∷ b ∷ []) nested)
unfolding add_nested_key get_field same fleare.Json.set_field
read-add_nested_key_example =
    read-add_nested_key a (a ∷ []) (num 2) nested nested_more a (b ∷ []) refl (inr (refl, inl refl))

read-remove_nested_key_example :
    (read_nested_key (a ∷ a ∷ []) nested ≡ none)
    × (read_nested_key (a ∷ b ∷ []) nested ≡ read_nested_key (a ∷ b ∷ []) nested_more)
unfolding remove_nested_key get_field same fleare.Json.set_field fleare.Json.delete_field
read-remove_nested_key_example =
    read-remove_nested_key a (a ∷ []) nested_more nested a (b ∷ []) refl (inr (refl, inl refl))

get_field-merge_objects_example :
    get_field a (merge_objects nested (field a (obj (field a (num 2) end)) (field b (num 3) end)))
    ≡ some (obj (merge_objects (field b (num 1) end) (field a (num 2) end)))
unfolding get_field same merge_objects
get_field-merge_objects_example =
    get_field-merge_objects a nested (field a (obj (field a (num 2) end)) (field b (num 3) end))
      (refl, (refl, tt))
