-- ===== src/Command/Text.antt =====
-- commander/string_cmd: STR.SET, STR.GET, STR.APPEND, STR.LENGTH and STR.RANGE.
pub mod Range
use fleare.Prelude.{
  ℕ, ◌+◌, ◌-◌, ◌≤◌, Bool, true, false, not, Option, none, some, List, [], ◌∷◌, ◌++◌, length, take,
  drop, leb, ltb, ◌==◌, if◌then◌else◌,
}
use fleare.Prelude.Int.{ℤ, pos, negsuc, ◌+ℤ◌, ltb_ℤ, leb_ℤ, wrap64, pos_part}
use fleare.Prelude.Bytes.{Bytes}
use fleare.Prelude.Decimal.{itoa, parse_int}
use fleare.Store.{Object, string_kind}
use fleare.Exec.{
  Exec, Outcome, ok, crash, pure, fail, panic, require, invalid_args, invalid_key, invalid_value,
  key_not_found, ◌>>=◌, ◌>>◌,
}
use fleare.Json.{Library}
use fleare.Shard.{Env, ShardManager, mem_get}
use fleare.Command.{Handler, check_key, save}

-- A stored object must be a string; a missing one passes.
abbrev pub check_string : Option Object → Exec ShardManager (Unit {0})
check_string none = pure tt
check_string (some obj) = require (obj.kind == string_kind) invalid_value

abbrev pub text_of : Option Object → Bytes
text_of none = []
text_of (some obj) = obj.value

-- `obj.Value` of a nil object panics.
abbrev pub value_or_panic : Option Object → Exec ShardManager Bytes
value_or_panic none = panic
value_or_panic (some obj) = pure obj.value

unfoldable pub concat : Bytes → List Bytes → Bytes
concat text [] = text
concat text (arg ∷ args) = concat (text ++ arg) args

-- The bounds that getRange computes for a text of `size` runes. (`size` and the offsets are ints.)
unfoldable pub range_start : ℕ → ℤ → ℤ
range_start size start =
    let start1 = if ltb_ℤ start (pos 0) then wrap64 (pos size +ℤ start) else start in
    let start2 = if ltb_ℤ start1 (pos 0) then pos 0 else start1 in
    if ltb_ℤ (pos size) start2 then pos size else start2

unfoldable pub range_end : ℕ → ℤ → ℤ → ℤ
range_end size start end =
    let start1 = if ltb_ℤ start (pos 0) then wrap64 (pos size +ℤ start) else start in
    let end1 = if ltb_ℤ end (pos 0) then pos size else wrap64 (start1 +ℤ end) in
    if leb_ℤ (pos size) end1 then pos size else end1

-- runes[start:end], which panics unless 0 ≤ start ≤ end ≤ len(runes).
unfoldable pub slice_runes : ℤ → ℤ → List ℕ → Option (List ℕ)
slice_runes start end runes =
    if ltb_ℤ start (pos 0)
    then none
    else if ltb_ℤ end start
    then none
    else if ltb_ℤ (pos (length runes)) end
    then none
    else some (take (pos_part end - pos_part start) (drop (pos_part start) runes))

-- getRange; none is a panic.
unfoldable pub get_range : List ℕ → ℤ → ℤ → Option (List ℕ)
unfolding range_start range_end slice_runes
get_range runes start end =
    slice_runes (range_start (length runes) start) (range_end (length runes) start end) runes

module _ (env : Env) where
  -- strSetFunc
  unfoldable pub str_set : Handler
  str_set [] = fail invalid_key
  str_set (key ∷ value ∷ []) = do check_key key; save env key value string_kind; pure []
  str_set _ = fail invalid_args

  -- strGetFunc
  unfoldable pub str_get : Handler
  str_get [] = fail invalid_key
  str_get (key ∷ []) = do check_key key; obj ← mem_get env key; check_string obj; value_or_panic obj
  str_get _ = fail invalid_args

  -- strAppendFunc
  unfoldable pub str_append : Handler
  str_append [] = fail invalid_key
  str_append (key ∷ args) = do
    check_key key
    obj ← mem_get env key
    check_string obj
    save env key (concat (text_of obj) args) string_kind
    pure []

  -- strLengthFunc
  unfoldable pub str_length : Handler
  str_length [] = fail invalid_key
  str_length (key ∷ []) = do
    check_key key
    obj ← mem_get env key
    check_string obj
    pure (itoa (pos (length (text_of obj))))
  str_length _ = fail invalid_args

  module _ (lib : Library) where
    abbrev pub reply_range : Option (List ℕ) → Exec ShardManager Bytes
    reply_range none = panic
    reply_range (some runes) = pure (lib.of_runes runes)

    abbrev pub range_of : Option Object → ℤ → ℤ → Exec ShardManager Bytes
    range_of none start end = fail key_not_found
    range_of (some obj) start end =
        require (obj.kind == string_kind) invalid_value
        >> reply_range (get_range (lib.runes obj.value) start end)

    abbrev pub range_parsed : Bytes → Option ℤ → Option ℤ → Exec ShardManager Bytes
    range_parsed key (some start) (some end) = mem_get env key >>= λ obj. range_of obj start end
    range_parsed key _ _ = fail invalid_args

    -- strRangeFunc
    unfoldable pub str_range : Handler
    str_range [] = fail invalid_key
    str_range (key ∷ start ∷ end ∷ []) = do
      check_key key
      range_parsed key (parse_int start) (parse_int end)
    str_range _ = fail invalid_args
