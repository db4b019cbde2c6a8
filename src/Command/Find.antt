-- ===== src/Command/Find.antt =====
-- commander/list_cmd/list_find.go: LIST.FIND, and utils.ParsePath.
mod Runs
pub mod Parse
pub mod Meaning
pub mod Chosen
use fleare.Prelude.{
  ℕ, Bool, true, false, not, Option, none, some, List, [], ◌∷◌, ◌++◌, length, ◌==◌, ltb,
  if◌then◌else◌,
}
use fleare.Prelude.Bytes.{Bytes, same, trim_prefix}
use fleare.Store.{Object, list_kind}
use fleare.Exec.{
  Exec, pure, fail, require, invalid_args, invalid_key, invalid_value, invalid_character, ◌>>=◌,
  ◌>>◌,
}
use fleare.Json.{
  Library, Value, Fields, null, bool, num, str, arr, obj, nil_map, end, get_field, or_null, slice,
  as_array, of_slice, marshalled,
}
use fleare.Json.Path.{split}
use fleare.Shard.{Env, ShardManager, mem_get}
use fleare.Command.{Handler, check_key}

pub data Op : Type 0 where
  ge le gt lt eq ne fold : Op

abbrev pub op_text : Op → Bytes
op_text ge = b'>' ∷ b'=' ∷ []
op_text le = b'<' ∷ b'=' ∷ []
op_text gt = b'>' ∷ []
op_text lt = b'<' ∷ []
op_text eq = b':' ∷ []
op_text ne = b'!' ∷ []
op_text fold = b'~' ∷ []

-- The order in which ParsePath tries them.
abbrev pub ops : List Op
ops = ge ∷ le ∷ gt ∷ lt ∷ eq ∷ ne ∷ fold ∷ []

-- `op` is none where the source has the empty string.
pub record Query : Type 0 where
  pub field : Bytes
  pub op : Option Op
  pub value : Bytes

abbrev pub no_query : Query
no_query = record { field = []; op = none; value = [] }

-- strings.Index, as the text in front of the first occurrence and behind it.
abbrev pub onto_front : ℕ → Option (Bytes × Bytes) → Option (Bytes × Bytes)
onto_front c none = none
onto_front c (some (front, back)) = some (c ∷ front, back)

abbrev pub or_later : Option Bytes → Option (Bytes × Bytes) → Option (Bytes × Bytes)
or_later (some back) later = some ([], back)
or_later none later = later

unfoldable pub cut : Bytes → Bytes → Option (Bytes × Bytes)
unfolding trim_prefix
cut o [] = or_later (trim_prefix o []) none
cut o (c ∷ cs) = or_later (trim_prefix o (c ∷ cs)) (onto_front c (cut o cs))

-- The two loops of ParsePath: with a field in front of the operator, and without.
abbrev pub field_query : Op → Option (Bytes × Bytes) → Query → Query
field_query o none later = later
field_query o (some (front, back)) later = record { field = front; op = some o; value = back }

unfoldable pub first_cut : List Op → Bytes → Query
first_cut [] path = no_query
first_cut (o ∷ os) path = field_query o (cut (op_text o) path) (first_cut os path)

abbrev pub value_query : Op → Option Bytes → Query → Query
value_query o none later = later
value_query o (some back) later = record { field = []; op = some o; value = back }

unfoldable pub first_prefix : List Op → Bytes → Query
first_prefix [] path = no_query
first_prefix (o ∷ os) path = value_query o (trim_prefix (op_text o) path) (first_prefix os path)

unfoldable pub parse_path : Bytes → Query
unfolding first_cut first_prefix cut trim_prefix
parse_path [] = first_prefix ops []
parse_path (c ∷ path) = if c == b'$' then first_cut ops path else first_prefix ops (c ∷ path)

module _ (lib : Library) where
  -- valueEqual: as truth values, else as numbers, else as texts.
  abbrev pub bools_equal : Option Bool → Option Bool → Bool → Bool
  bools_equal (some true) (some b) other = b
  bools_equal (some false) (some b) other = not b
  bools_equal o p other = other

  abbrev pub floats_equal : Option lib.Float → Option lib.Float → Bool → Bool
  floats_equal (some a) (some b) other = lib.float_eq a b
  floats_equal o p other = other

  unfoldable pub value_equal : Bytes → Bytes → Bool
  value_equal a b =
      bools_equal (lib.parse_bool a) (lib.parse_bool b)
        (floats_equal (lib.parse_float a) (lib.parse_float b) (same a b))

  -- compareFloat
  abbrev pub compared : (lib.Float → lib.Float → Bool) → Option lib.Float → Option lib.Float → Bool
  compared test (some a) (some b) = test a b
  compared test o p = false

  abbrev pub compare_float : (lib.Float → lib.Float → Bool) → Bytes → Bytes → Bool
  compare_float test a b = compared test (lib.parse_float a) (lib.parse_float b)

  unfoldable pub matches : Bytes → Option Op → Bytes → Bool
  unfolding value_equal
  matches left none right = false
  matches left (some eq) right = value_equal left right
  matches left (some ne) right = not (value_equal left right)
  matches left (some fold) right = lib.equal_fold left right
  matches left (some gt) right = compare_float (λ a b. lib.float_lt b a) left right
  matches left (some lt) right = compare_float lib.float_lt left right
  matches left (some ge) right = compare_float (λ a b. lib.float_le b a) left right
  matches left (some le) right = compare_float lib.float_le left right

  -- getNestedValue; a missing field reads as nil.
  unfoldable pub get_nested_value : List Bytes → Value lib.Float → Option Bytes
  get_nested_value [] v = some (lib.show v)
  get_nested_value (part ∷ parts) (obj fs) = get_nested_value parts (or_null (get_field part fs))
  get_nested_value (part ∷ parts) nil_map = get_nested_value parts null
  get_nested_value (part ∷ parts) v = none

  abbrev pub is_map : Value lib.Float → Bool
  is_map (obj fs) = true
  is_map nil_map = true
  is_map v = false

  -- The text of an item that a query looks at; none is `continue`.
  abbrev pub field_text : Bytes → Value lib.Float → Option Bytes
  field_text [] v = none
  field_text (c ∷ cs) v = get_nested_value (split b'.' (c ∷ cs)) v

  abbrev pub plain_text : Bytes → Value lib.Float → Option Bytes
  plain_text [] v = some (lib.show v)
  plain_text (c ∷ cs) v = none

  unfoldable pub looked_at : Bytes → Value lib.Float → Option Bytes
  unfolding get_nested_value
  looked_at field v = if is_map v then field_text field v else plain_text field v

  abbrev pub matches_text : Query → Option Bytes → Bool
  matches_text q none = false
  matches_text q (some text) = matches text q.op q.value

  -- The loop of Filter; `result` is nil until something is found.
  unfoldable pub filter_items :
      Query
      → List (Value lib.Float)
      → Option (List (Value lib.Float))
      → Option (List (Value lib.Float))
  unfolding looked_at matches
  filter_items q [] result = result
  filter_items q (item ∷ items) result =
      filter_items q items (
        if matches_text q (looked_at q.field item)
        then some (slice result ++ item ∷ [])
        else result)

  abbrev pub filter_list : List (Value lib.Float) → Bytes → Option (List (Value lib.Float))
  filter_list items path = filter_items (parse_path path) items none

  module _ (env : Env) where
    abbrev pub found_items : Bytes → List (Value lib.Float) → Bytes
    found_items path [] = []
    found_items path (v ∷ vs) = marshalled lib (of_slice (filter_list (v ∷ vs) path))

    abbrev pub find_in_list :
        Bytes → Option (Option (List (Value lib.Float))) → Exec ShardManager Bytes
    find_in_list path none = fail invalid_character
    find_in_list path (some vs) = pure (found_items path (slice vs))

    abbrev pub find_in : Bytes → Option Object → Exec ShardManager Bytes
    find_in path none = pure []
    find_in path (some o) =
        require (o.kind == list_kind) invalid_value
        >> find_in_list path (as_array (lib.unmarshal o.value))

    -- listFilterFunc
    unfoldable pub list_find : Handler
    unfolding filter_items parse_path
    list_find [] = fail invalid_key
    list_find (key ∷ path ∷ []) = do check_key key; o ← mem_get env key; find_in path o
    list_find _ = fail invalid_args
