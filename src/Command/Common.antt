-- ===== src/Command/Common.antt =====
-- commander/common: SET, GET, DELETE and EXISTS.
use fleare.Prelude.{ℕ, ◌+◌, Option, none, some, List, [], ◌∷◌, if◌then◌else◌}
use fleare.Prelude.Int.{wrap8}
use fleare.Prelude.Bytes.{Bytes}
use fleare.Prelude.Decimal.{itoa}
use fleare.Store.{Object, default_kind}
use fleare.Exec.{Exec, pure, fail, invalid_args, invalid_key, invalid_character, ◌>>=◌, ◌>>◌}
use fleare.Json.{Library, Fields, as_map, fields, or_null, object_to_byte}
use fleare.Json.Path.{split, read_nested_key}
use fleare.Shard.{Env, ShardManager, mem_get, mem_delete, wal_delete}
use fleare.Command.{Handler, check_key, save}

module _ (env : Env) where
  -- setKey
  unfoldable pub set_key : Handler
  set_key (key ∷ value ∷ []) = do check_key key; save env key value default_kind; pure []
  set_key _ = fail invalid_args

  -- deleteKey
  unfoldable pub delete_key : Handler
  delete_key (key ∷ []) = do
    check_key key
    status ← mem_delete env key
    if status then wal_delete env key else pure tt
    pure []
  delete_key _ = fail invalid_args

  -- The loop of existsFunc; `found` is an int8, of which the reply shows the value.
  abbrev pub found_one : Option Object → ℕ
  found_one none = 0
  found_one (some obj) = 1

  unfoldable pub count_existing : List Bytes → ℕ → Exec ShardManager ℕ
  count_existing [] found = pure found
  count_existing (key ∷ keys) found =
      mem_get env key >>= λ obj. count_existing keys (found + found_one obj)

  -- existsFunc
  unfoldable pub exists_func : Handler
  exists_func [] = fail invalid_key
  exists_func (key ∷ keys) = do found ← count_existing (key ∷ keys) 0; pure (itoa (wrap8 found))

  module _ (lib : Library) where
    abbrev pub reply_field : Bytes → Option (Option (Fields lib.Float)) → Exec ShardManager Bytes
    reply_field path none = fail invalid_character
    reply_field path (some m) =
        pure (object_to_byte lib (or_null (read_nested_key (split b'.' path) (fields m))))

    -- What GET replies for a path into an object.
    abbrev pub reply_path : Option Object → Bytes → Exec ShardManager Bytes
    reply_path none path = pure []
    reply_path (some obj) path = reply_field path (as_map (lib.unmarshal obj.value))

    abbrev pub reply_value : Option Object → Bytes
    reply_value none = []
    reply_value (some obj) = obj.value

    -- getKey
    unfoldable pub get_key : Handler
    get_key [] = fail invalid_key
    get_key (key ∷ []) = do check_key key; obj ← mem_get env key; pure (reply_value obj)
    get_key (key ∷ path ∷ []) = do check_key key; obj ← mem_get env key; reply_path obj path
    get_key _ = fail invalid_args
