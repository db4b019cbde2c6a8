-- ===== src/Json/Path.antt =====
-- Dotted paths into JSON objects: readNestedKey of commander/common/get.go.
use fleare.Prelude.{ℕ, ◌==◌, Option, none, some, List, [], ◌∷◌, if◌then◌else◌}
use fleare.Prelude.Bytes.{Bytes}
use fleare.Json.{Value, Fields, obj, get_field}

-- The value behind one key must be an object for the walk to go on.
abbrev pub below : {F A : Type 0} → Option (Value F) → (Fields F → Option A) → Option A
below (some (obj fs)) next = next fs
below _ next = none

-- strings.Split for a separator of one byte: the parts between the separators.
abbrev pub onto_first : ℕ → List Bytes → List Bytes
onto_first c [] = (c ∷ []) ∷ []
onto_first c (p ∷ ps) = (c ∷ p) ∷ ps

unfoldable pub split : ℕ → Bytes → List Bytes
split sep [] = [] ∷ []
split sep (c ∷ cs) = let rest = split sep cs in if c == sep then [] ∷ rest else onto_first c rest

module _ {F : Type 0} where
  -- readNestedKey; none stands for its errors, which the callers ignore.
  unfoldable pub read_nested_key : List Bytes → Fields F → Option (Value F)
  read_nested_key [] fs = none
  read_nested_key (k ∷ []) fs = get_field k fs
  read_nested_key (k ∷ key ∷ keys) fs = below (get_field k fs) (read_nested_key (key ∷ keys))
