-- ===== src/Command/Durable/Texts.antt =====
-- The commands of commander/common, commander/string_cmd and commander/num_cmd: the agreement of
-- the log and the memory.
use fleare.Prelude.{
  ℕ, ◌≡◌, refl, Bool, true, false, Option, none, some, List, [], ◌∷◌, Option-cases, inl, inr, arith,
  sym, ◌∙◌, if◌then◌else◌,
}
use fleare.Prelude.Int.{ℤ}
use fleare.Prelude.Bytes.{Bytes}
use fleare.Prelude.Dict.{lookup}
use fleare.Store.{Object, Memory, delete}
use fleare.Wal.{delete_op}
use fleare.Exec.{pure, ◌>>=◌, ◌>>◌}
use fleare.Exec.Keeps.{Keeps, keeps_rules}
use fleare.Json.{Library, Fields, as_map}
use fleare.Shard.{Env, ShardManager, shard_by_key, mem_delete, wal_delete, send_entry}
use fleare.Shard.Access.{stored, logged, stored-on_shard}
use fleare.Shard.Durable.{
  Durable, Accepting, Agrees, But, log-on_shard, on_shard-crash, on_shard-But, send_entry-Durable,
  Durable-all,
}
use fleare.Command.Common.{
  set_key, delete_key, count_existing, exists_func, get_key, reply_field, reply_path,
}
use fleare.Command.Text.{
  check_string, value_or_panic, str_set, str_get, str_append, str_length, str_range, reply_range,
  range_of, range_parsed,
}
use fleare.Command.Num.{
  check_number, number_or_panic, set_number, number_set, number_get, number_step, store_number,
  step_by,
}
use fleare.Command.Durable.{mem_get-Durable, save-Durable, delete-Local, delete-own}

module _ {P : ShardManager → Type 0} where
  check_string-Keeps : (o : Option Object) → Keeps P (check_string o)
  check_string-Keeps none = search keeps_rules
  check_string-Keeps (some obj) = search keeps_rules

  value_or_panic-Keeps : (o : Option Object) → Keeps P (value_or_panic o)
  value_or_panic-Keeps none = search keeps_rules
  value_or_panic-Keeps (some obj) = search keeps_rules

  check_number-Keeps : (o : Option Object) → Keeps P (check_number o)
  check_number-Keeps none = search keeps_rules
  check_number-Keeps (some obj) = search keeps_rules

  number_or_panic-Keeps : (o : Option Object) → Keeps P (number_or_panic o)
  number_or_panic-Keeps none = search keeps_rules
  number_or_panic-Keeps (some obj) = search keeps_rules

ruleset text_rules = (
  keeps_rules, mem_get-Durable, save-Durable, check_string-Keeps, value_or_panic-Keeps,
  check_number-Keeps, number_or_panic-Keeps,
)

module _ (env : Env) where
  -- The reply behind the conditional changes nothing more.
  if_then :
      (b : Bool) (key : Bytes) (sm : ShardManager)
      → Durable env ((if b then wal_delete env key else pure tt) sm).1
      → Durable env (((if b then wal_delete env key else pure tt) >> pure {A = Bytes} []) sm).1
  unfolding send_entry
  if_then true key sm d = d
  if_then false key sm d = d

module _ (env : Env) (acc : Accepting env) where
  pub set_key-Durable : (args : List Bytes) → Keeps (Durable env) (set_key env args)
  unfolding set_key
  set_key-Durable (key ∷ value ∷ []) = search text_rules
  set_key-Durable _ = search keeps_rules

  count-Durable :
      (keys : List Bytes) (found : ℕ) → Keeps (Durable env) (count_existing env keys found)
  unfolding count_existing
  count-Durable [] found = search keeps_rules
  count-Durable (key ∷ keys) found = search (text_rules, λ (n : ℕ). count-Durable keys n)

  pub exists_func-Durable : (args : List Bytes) → Keeps (Durable env) (exists_func env args)
  unfolding exists_func
  exists_func-Durable [] = search keeps_rules
  exists_func-Durable (key ∷ keys) = search (keeps_rules, count-Durable (key ∷ keys) 0)

  delete_if :
      (key : Bytes) (sm : ShardManager) (m : Memory) (status : Bool)
      → (delete key m).0 ≡ status
      → But env key (mem_delete env key sm).1
      → stored env (mem_delete env key sm).1 key ≡ lookup key (delete key m).1
      → Agrees env.now (lookup key m) (logged (mem_delete env key sm).1.log key)
      → Durable env ((if status then wal_delete env key else pure tt) (mem_delete env key sm).1).1
  unfolding delete
  delete_if key sm m true e b held a =
      send_entry-Durable env (record { op = delete_op; key = key; object = none })
        (mem_delete env key sm).1 acc b (delete-own key m ∙ sym held)
  delete_if key sm m false e b held a =
      Durable-all env key (mem_delete env key sm).1 b (rw held (ground (arith, a)))

  delete_logged :
      (key : Bytes)
      → Keeps (Durable env) (
          mem_delete env key >>= λ status.
          (if status then wal_delete env key else pure tt) >> pure {A = Bytes} [])
  delete_logged key = record {
    at = λ sm d. elim (Option-cases (shard_by_key env key sm)) [
      | inl missing ↦ rw (on_shard-crash env key (delete key) sm missing) d
      | inr (m, found) ↦
          let (answer, held) = stored-on_shard env key (delete key) sm m found in
          let said : Agrees env.now (lookup key m) (logged sm.log key) = rw found at (d.at key) in
          rw answer (
            if_then env (delete key m).0 key (mem_delete env key sm).1 (
              delete_if key sm m (delete key m).0 refl
                (on_shard-But env key (delete key) sm (delete-Local key) d) held
                (rw (log-on_shard env key (delete key) sm) said)))
    ];
  }

  pub delete_key-Durable : (args : List Bytes) → Keeps (Durable env) (delete_key env args)
  unfolding delete_key
  delete_key-Durable (key ∷ []) = search (keeps_rules, delete_logged)
  delete_key-Durable _ = search keeps_rules

  pub str_set-Durable : (args : List Bytes) → Keeps (Durable env) (str_set env args)
  unfolding str_set
  str_set-Durable [] = search keeps_rules
  str_set-Durable (key ∷ value ∷ []) = search text_rules
  str_set-Durable _ = search keeps_rules

  pub str_get-Durable : (args : List Bytes) → Keeps (Durable env) (str_get env args)
  unfolding str_get
  str_get-Durable [] = search keeps_rules
  str_get-Durable (key ∷ []) = search text_rules
  str_get-Durable _ = search keeps_rules

  pub str_append-Durable : (args : List Bytes) → Keeps (Durable env) (str_append env args)
  unfolding str_append
  str_append-Durable [] = search keeps_rules
  str_append-Durable (key ∷ args) = search text_rules

  pub str_length-Durable : (args : List Bytes) → Keeps (Durable env) (str_length env args)
  unfolding str_length
  str_length-Durable [] = search keeps_rules
  str_length-Durable (key ∷ []) = search text_rules
  str_length-Durable _ = search keeps_rules

  module _ (lib : Library) where
    reply_field-Keeps :
        {P : ShardManager → Type 0} (path : Bytes) (m : Option (Option (Fields lib.Float)))
        → Keeps P (reply_field env lib path m)
    reply_field-Keeps path none = search keeps_rules
    reply_field-Keeps path (some m) = search keeps_rules

    reply_path-Keeps :
        {P : ShardManager → Type 0} (o : Option Object) (path : Bytes)
        → Keeps P (reply_path env lib o path)
    reply_path-Keeps none path = search keeps_rules
    reply_path-Keeps (some obj) path = reply_field-Keeps path (as_map (lib.unmarshal obj.value))

    pub get_key-Durable : (args : List Bytes) → Keeps (Durable env) (get_key env lib args)
    unfolding get_key
    get_key-Durable [] = search keeps_rules
    get_key-Durable (key ∷ []) = search text_rules
    get_key-Durable (key ∷ path ∷ []) = search (text_rules, reply_path-Keeps)
    get_key-Durable _ = search keeps_rules

    reply_range-Keeps :
        {P : ShardManager → Type 0} (r : Option (List ℕ)) → Keeps P (reply_range env lib r)
    reply_range-Keeps none = search keeps_rules
    reply_range-Keeps (some r) = search keeps_rules

    range_of-Keeps :
        {P : ShardManager → Type 0} (o : Option Object) (start end : ℤ)
        → Keeps P (range_of env lib o start end)
    range_of-Keeps none start end = search keeps_rules
    range_of-Keeps (some obj) start end = search (keeps_rules, reply_range-Keeps)

    range_parsed-Durable :
        (key : Bytes) (start end : Option ℤ)
        → Keeps (Durable env) (range_parsed env lib key start end)
    range_parsed-Durable key (some start) (some end) = search (text_rules, range_of-Keeps)
    range_parsed-Durable key _ _ = search keeps_rules

    pub str_range-Durable : (args : List Bytes) → Keeps (Durable env) (str_range env lib args)
    unfolding str_range
    str_range-Durable [] = search keeps_rules
    str_range-Durable (key ∷ start ∷ end ∷ []) = search (text_rules, range_parsed-Durable)
    str_range-Durable _ = search keeps_rules

    set_number-Durable :
        (key : Bytes) (v : Option lib.Float) → Keeps (Durable env) (set_number env lib key v)
    set_number-Durable key none = search keeps_rules
    set_number-Durable key (some v) = search text_rules

    pub number_set-Durable : (args : List Bytes) → Keeps (Durable env) (number_set env lib args)
    unfolding number_set
    number_set-Durable [] = search keeps_rules
    number_set-Durable (key ∷ value ∷ []) = search (text_rules, set_number-Durable)
    number_set-Durable _ = search keeps_rules

    pub number_get-Durable : (args : List Bytes) → Keeps (Durable env) (number_get env lib args)
    unfolding number_get
    number_get-Durable [] = search keeps_rules
    number_get-Durable (key ∷ []) = search text_rules
    number_get-Durable _ = search keeps_rules

    store_number-Durable :
        (key : Bytes) (v : Option lib.Float) → Keeps (Durable env) (store_number env lib key v)
    store_number-Durable key none = search keeps_rules
    store_number-Durable key (some v) = search text_rules

    step_by-Durable :
        (op : lib.Float → lib.Float → lib.Float) (key : Bytes) (v : Option lib.Float)
        → Keeps (Durable env) (step_by env lib op key v)
    step_by-Durable op key none = search keeps_rules
    step_by-Durable op key (some v) = search (text_rules, store_number-Durable)

    pub number_step-Durable :
        (op : lib.Float → lib.Float → lib.Float) (args : List Bytes)
        → Keeps (Durable env) (number_step env lib op args)
    unfolding number_step
    number_step-Durable op [] = search keeps_rules
    number_step-Durable op (key ∷ []) = search (text_rules, step_by-Durable)
    number_step-Durable op (key ∷ value ∷ []) = search (text_rules, step_by-Durable)
    number_step-Durable op _ = search keeps_rules
