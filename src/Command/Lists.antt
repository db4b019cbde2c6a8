-- ===== src/Command/Lists.antt =====
-- commander/list_cmd but list_find.go: LIST.SET, LIST.PUSH, LIST.ISET, LIST.GET, LIST.LEN,
-- LIST.POP and LIST.GPOP.
use fleare.Prelude.{
  ℕ, zero, suc, Option, none, some, List, [], ◌∷◌, ◌++◌, length, get_elem?, set, ltb, ◌==◌,
}
use fleare.Prelude.Int.{ℤ, pos}
use fleare.Prelude.Bytes.{Bytes}
use fleare.Prelude.Decimal.{itoa, parse_int}
use fleare.Store.{Object, list_kind}
use fleare.Exec.{
  Exec, pure, fail, require, invalid_args, invalid_key, invalid_value, invalid_character,
  invalid_index, ◌>>=◌, ◌>>◌,
}
use fleare.Json.{
  Library, Value, null, slice, as_array, of_slice, object_to_byte, marshalled, ensure_unmarshal,
}
use fleare.Shard.{Env, ShardManager, mem_get, mem_set, wal_put}
use fleare.Command.{Handler, check_key, save, remove}

-- The elements of a list but its last, and the last.
unfoldable pub unsnoc : {A : Type 0} → A → List A → List A × A
unsnoc x [] = ([], x)
unsnoc x (y ∷ ys) = let (front, last) = unsnoc y ys in (x ∷ front, last)

module _ (env : Env) (lib : Library) where
  -- The JSON text of a slice.
  abbrev pub slice_bytes : Option (List (Value lib.Float)) → Bytes
  slice_bytes vs = marshalled lib (of_slice vs)

  -- `append` of the arguments, one after the other.
  unfoldable pub append_args :
      Option (List (Value lib.Float)) → List Bytes → Option (List (Value lib.Float))
  append_args vs [] = vs
  append_args vs (arg ∷ args) = append_args (some (slice vs ++ ensure_unmarshal lib arg ∷ [])) args

  abbrev pub decoded : Object → Option (Option (List (Value lib.Float)))
  decoded obj = as_array (lib.unmarshal obj.value)

  abbrev pub count_reply : Option (List (Value lib.Float)) → Bytes
  count_reply vs = itoa (pos (length (slice vs)))

  -- listSetFunc
  unfoldable pub list_set : Handler
  list_set [] = fail invalid_key
  list_set (key ∷ []) = fail invalid_args
  list_set (key ∷ arg ∷ args) = do
    check_key key
    save env key (slice_bytes (append_args none (arg ∷ args))) list_kind
    pure (count_reply (append_args none (arg ∷ args)))

  -- listPushFunc: the present value must be a JSON array (or null), of whatever kind.
  abbrev pub push_onto :
      Bytes → List Bytes → Option (Option (List (Value lib.Float))) → Exec ShardManager Bytes
  push_onto key args none = fail invalid_character
  push_onto key args (some vs) =
      save env key (slice_bytes (append_args vs args)) list_kind
      >> pure (count_reply (append_args vs args))

  abbrev pub push_target : Option Object → Option (Option (List (Value lib.Float)))
  push_target none = some none
  push_target (some obj) = decoded obj

  unfoldable pub list_push : Handler
  list_push [] = fail invalid_key
  list_push (key ∷ args) = do
    check_key key
    obj ← mem_get env key
    push_onto key args (push_target obj)

  -- listISetFunc
  abbrev pub iset_at :
      ℕ
      → Value lib.Float
      → Option (Option (List (Value lib.Float)))
      → Exec ShardManager (Option (List (Value lib.Float)))
  iset_at index v none = fail invalid_character
  iset_at index v (some vs) =
      require (ltb index (length (slice vs))) invalid_index >> pure (some (set (slice vs) index v))

  abbrev pub iset_target :
      ℕ → Value lib.Float → Option Object → Exec ShardManager (Option (List (Value lib.Float)))
  iset_target zero v none = pure (some (v ∷ []))
  iset_target (suc i) v none = fail invalid_index
  iset_target index v (some obj) = iset_at index v (decoded obj)

  abbrev pub iset_valid : Bytes → Option ℤ → Bytes → Exec ShardManager Bytes
  iset_valid key (some (pos index)) element = do
    check_key key
    obj ← mem_get env key
    vs ← iset_target index (ensure_unmarshal lib element) obj
    save env key (slice_bytes vs) list_kind
    pure []
  iset_valid key _ element = fail invalid_args

  unfoldable pub list_iset : Handler
  list_iset [] = fail invalid_key
  list_iset (key ∷ index ∷ element ∷ []) = iset_valid key (parse_int index) element
  list_iset _ = fail invalid_args

  -- The list of an object that must be of the list kind (LIST.GET, LIST.LEN).
  abbrev pub or_invalid :
      Option (Option (List (Value lib.Float))) → Exec ShardManager (Option (List (Value lib.Float)))
  or_invalid none = fail invalid_character
  or_invalid (some vs) = pure vs

  abbrev pub list_of : Object → Exec ShardManager (Option (List (Value lib.Float)))
  list_of obj = require (obj.kind == list_kind) invalid_value >> or_invalid (decoded obj)

  -- LIST.POP and LIST.GPOP decode before they look at the kind.
  abbrev pub list_to_pop : Object → Exec ShardManager (Option (List (Value lib.Float)))
  list_to_pop obj = do
    vs ← or_invalid (decoded obj)
    require (obj.kind == list_kind) invalid_value
    pure vs

  abbrev pub or_out_of_range : Option (Value lib.Float) → Exec ShardManager Bytes
  or_out_of_range none = fail invalid_index
  or_out_of_range (some v) = pure (object_to_byte lib v)

  -- listGetFunc
  abbrev pub element_at : List (Value lib.Float) → Option ℤ → Exec ShardManager Bytes
  element_at vs (some (pos index)) = or_out_of_range (get_elem? vs index)
  element_at vs _ = fail invalid_args

  abbrev pub whole_list : Option Object → Exec ShardManager Bytes
  whole_list none = pure []
  whole_list (some obj) = list_of obj >>= λ vs. pure (slice_bytes vs)

  abbrev pub list_element : Bytes → Option Object → Exec ShardManager Bytes
  list_element index none = pure []
  list_element index (some obj) = list_of obj >>= λ vs. element_at (slice vs) (parse_int index)

  unfoldable pub list_get : Handler
  list_get [] = fail invalid_key
  list_get (key ∷ []) = do check_key key; obj ← mem_get env key; whole_list obj
  list_get (key ∷ index ∷ []) = do check_key key; obj ← mem_get env key; list_element index obj
  list_get _ = fail invalid_args

  -- listLenFunc
  abbrev pub list_length : Option Object → Exec ShardManager Bytes
  list_length none = pure (b'0' ∷ [])
  list_length (some obj) = list_of obj >>= λ vs. pure (count_reply vs)

  unfoldable pub list_len : Handler
  list_len [] = fail invalid_key
  list_len (key ∷ []) = do check_key key; obj ← mem_get env key; list_length obj
  list_len _ = fail invalid_args

  -- listPopFunc: the only element goes with its key; a last element that is JSON's null stays.
  abbrev pub pop_more : Bytes → List (Value lib.Float) → Value lib.Float → Exec ShardManager Bytes
  pop_more key front null = pure []
  pop_more key front last =
      save env key (slice_bytes (some front)) list_kind >> pure (object_to_byte lib last)

  abbrev pub pop_elements : Bytes → List (Value lib.Float) → Exec ShardManager Bytes
  pop_elements key [] = pure []
  pop_elements key (v ∷ []) = remove env key >> pure (object_to_byte lib v)
  pop_elements key (v ∷ w ∷ vs) = let (front, last) = unsnoc v (w ∷ vs) in pop_more key front last

  abbrev pub pop_object : Bytes → Option Object → Exec ShardManager Bytes
  pop_object key none = pure []
  pop_object key (some obj) = list_to_pop obj >>= λ vs. pop_elements key (slice vs)

  unfoldable pub list_pop : Handler
  unfolding unsnoc
  list_pop [] = fail invalid_key
  list_pop (key ∷ args) = do check_key key; obj ← mem_get env key; pop_object key obj

  -- listGPopFunc: the log gets the old object with the new value, and so with the old timestamp.
  abbrev pub gpop_elements : Bytes → Object → List (Value lib.Float) → Exec ShardManager Bytes
  gpop_elements key obj [] = pure []
  gpop_elements key obj (v ∷ vs) =
      let (front, last) = unsnoc v vs in
      mem_set env key (slice_bytes (some front)) list_kind
      >> wal_put env key (record obj { value = slice_bytes (some front) })
      >> pure (object_to_byte lib last)

  abbrev pub gpop_object : Bytes → Option Object → Exec ShardManager Bytes
  gpop_object key none = fail invalid_key
  gpop_object key (some obj) = list_to_pop obj >>= λ vs. gpop_elements key obj (slice vs)

  unfoldable pub list_gpop : Handler
  unfolding unsnoc
  list_gpop [] = fail invalid_key
  list_gpop (key ∷ args) = do check_key key; obj ← mem_get env key; gpop_object key obj
