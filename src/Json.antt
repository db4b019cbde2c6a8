-- ===== src/Json.antt =====
-- The values of Go's `any` that encoding/json makes, and the interface of that package and of the
-- floating-point type, which are parameters (`Library`).
mod Runs
pub mod Path
pub mod Edit
use fleare.Prelude.{ℕ, ◌+◌, Bool, Option, none, some, List, [], ◌∷◌, if◌then◌else◌}
use fleare.Prelude.Int.{ℤ}
use fleare.Prelude.Decimal.{parse_int}
use fleare.Prelude.Bytes.{Bytes, same}

-- Arrays and objects are lists of their own (a data type cannot hold a list of itself). The fields
-- of an object are a Go map: `set_field` writes a name once, and only lookups are observed.
mutual
  pub data Value (F : Type 0) : Type 0 where
    null : Value F
    bool : Bool → Value F
    num : F → Value F
    str : Bytes → Value F
    arr : Items F → Value F
    obj : Fields F → Value F
    -- A nil map inside an `any`; it is never decoded.
    nil_map : Value F

  pub data Items (F : Type 0) : Type 0 where
    nil : Items F
    cons : Value F → Items F → Items F

  pub data Fields (F : Type 0) : Type 0 where
    end : Fields F
    field : Bytes → Value F → Fields F → Fields F

module _ {F : Type 0} where
  abbrev pub items : List (Value F) → Items F
  items [] = nil
  items (v ∷ vs) = cons v (items vs)

  abbrev pub elements : Items F → List (Value F)
  elements nil = []
  elements (cons v vs) = v ∷ elements vs

  -- m[k]
  unfoldable pub get_field : Bytes → Fields F → Option (Value F)
  get_field k end = none
  get_field k (field j v fs) = if same j k then some v else get_field k fs

  -- m[k] = v
  unfoldable pub set_field : Bytes → Value F → Fields F → Fields F
  set_field k v end = field k v end
  set_field k v (field j w fs) =
      let rest = set_field k v fs in if same j k then field j v fs else field j w rest

  -- delete(m, k)
  unfoldable pub delete_field : Bytes → Fields F → Fields F
  delete_field k end = end
  delete_field k (field j w fs) =
      let rest = delete_field k fs in if same j k then rest else field j w rest

  -- len(m)
  abbrev pub count_fields : Fields F → ℕ
  count_fields end = 0
  count_fields (field k v fs) = 1 + count_fields fs

-- What the code uses of encoding/json, strconv and float64.
pub record Library : Type 1 where
  pub Float : Type 0
  -- json.Unmarshal into an `any`
  pub unmarshal : Bytes → Option (Value Float)
  -- json.Marshal; it fails for NaN and the infinities
  pub marshal : Value Float → Option Bytes
  -- json.Valid
  pub valid : Bytes → Bool
  -- strconv.ParseFloat, the conversion of an int64, and the comparisons
  pub parse_float : Bytes → Option Float
  pub of_int : ℤ → Float
  pub float_eq : Float → Float → Bool
  pub float_lt : Float → Float → Bool
  pub float_le : Float → Float → Bool
  pub one : Float
  pub add : Float → Float → Float
  pub sub : Float → Float → Float
  -- []rune(s) and string(runes)
  pub runes : Bytes → List ℕ
  pub of_runes : List ℕ → Bytes
  -- fmt's %v of an `any`, strconv.ParseBool and strings.EqualFold
  pub show : Value Float → Bytes
  pub parse_bool : Bytes → Option Bool
  pub equal_fold : Bytes → Bytes → Bool

-- A Go slice or map may be nil (`none`), which reads as empty.
module _ {F : Type 0} where
  abbrev pub slice : Option (List (Value F)) → List (Value F)
  slice none = []
  slice (some vs) = vs

  abbrev pub fields : Option (Fields F) → Fields F
  fields none = end
  fields (some fs) = fs

  -- json.Unmarshal into a `[]any` and into a `map[string]any`; JSON's null makes them nil.
  abbrev pub as_array : Option (Value F) → Option (Option (List (Value F)))
  as_array (some (arr vs)) = some (some (elements vs))
  as_array (some null) = some none
  as_array _ = none

  abbrev pub as_map : Option (Value F) → Option (Option (Fields F))
  as_map (some (obj fs)) = some (some fs)
  as_map (some null) = some none
  as_map _ = none

  -- What json.Marshal is given for a slice and for a map.
  abbrev pub of_slice : Option (List (Value F)) → Value F
  of_slice none = null
  of_slice (some vs) = arr (items vs)

  abbrev pub of_map : Option (Fields F) → Value F
  of_map none = null
  of_map (some fs) = obj fs

  -- A missing value of a map reads as nil.
  abbrev pub or_null : Option (Value F) → Value F
  or_null none = null
  or_null (some v) = v

  abbrev pub or_string : Bytes → Option (Value F) → Value F
  or_string s none = str s
  or_string s (some v) = v

module _ (lib : Library) where
  abbrev pub or_nil : Option Bytes → Bytes
  or_nil none = []
  or_nil (some b) = b

  -- utils.ObjectToByte of a value that is not nil (a slice, a map or a pointer never is): what
  -- cannot be marshalled becomes nil.
  abbrev pub marshalled : Value lib.Float → Bytes
  marshalled v = or_nil (lib.marshal v)

  -- utils.ObjectToByte of an `any`.
  abbrev pub object_to_byte : Value lib.Float → Bytes
  object_to_byte null = []
  object_to_byte v = marshalled v

  -- utils.EnsureUnmarshal: text that is not JSON is kept as a string.
  abbrev pub ensure_unmarshal : Bytes → Value lib.Float
  ensure_unmarshal s = or_string s (lib.unmarshal s)

  abbrev pub or_float : Option ℤ → Option lib.Float → Option lib.Float
  or_float none f = f
  or_float (some i) f = some (lib.of_int i)

  -- utils.ConvertToNumber
  unfoldable pub to_number : Bytes → Option lib.Float
  to_number s = or_float (parse_int s) (lib.parse_float s)
