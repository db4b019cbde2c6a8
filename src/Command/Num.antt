-- ===== src/Command/Num.antt =====
-- commander/num_cmd: NUM.SET, NUM.GET, NUM.INCR and NUM.DECR. Floating-point numbers, their text
-- and their arithmetic are the parameters of `Library`.
use fleare.Prelude.{Option, none, some, [], ◌∷◌, ◌==◌, if◌then◌else◌}
use fleare.Prelude.Bytes.{Bytes}
use fleare.Store.{Object, number_kind}
use fleare.Exec.{
  Exec, pure, fail, panic, require, invalid_args, invalid_key, invalid_value, ◌>>=◌, ◌>>◌,
}
use fleare.Json.{Library, num, marshalled, to_number}
use fleare.Shard.{Env, ShardManager, mem_get}
use fleare.Command.{Handler, check_key, save}

abbrev pub check_number : Option Object → Exec ShardManager (Unit {0})
check_number none = pure tt
check_number (some obj) = require (obj.kind == number_kind) invalid_value

-- `obj.Value` of a nil object panics.
abbrev pub number_or_panic : Option Object → Exec ShardManager Bytes
number_or_panic none = panic
number_or_panic (some obj) = pure obj.value

module _ (env : Env) (lib : Library) where
  abbrev pub set_number : Bytes → Option lib.Float → Exec ShardManager Bytes
  set_number key none = fail invalid_value
  set_number key (some v) = save env key (marshalled lib (num v)) number_kind >> pure []

  -- numberSetFunc
  unfoldable pub number_set : Handler
  number_set [] = fail invalid_key
  number_set (key ∷ value ∷ []) = do check_key key; set_number key (to_number lib value)
  number_set _ = fail invalid_args

  -- numberGetFunc
  unfoldable pub number_get : Handler
  number_get [] = fail invalid_key
  number_get (key ∷ []) = do
    check_key key
    obj ← mem_get env key
    check_number obj
    number_or_panic obj
  number_get _ = fail invalid_args

  -- The number to store: the step itself if the key is missing.
  abbrev pub stepped :
      (lib.Float → lib.Float → lib.Float) → Option Object → lib.Float → Option lib.Float
  stepped op none v = some v
  stepped op (some obj) v = elim (to_number lib obj.value) [
    | none ↦ none
    | some current ↦ if obj.kind == number_kind then some (op current v) else none
  ]

  abbrev pub store_number : Bytes → Option lib.Float → Exec ShardManager Bytes
  store_number key none = fail invalid_value
  store_number key (some v) =
      save env key (marshalled lib (num v)) number_kind >> pure (marshalled lib (num v))

  abbrev pub step_by :
      (lib.Float → lib.Float → lib.Float) → Bytes → Option lib.Float → Exec ShardManager Bytes
  step_by op key none = fail invalid_value
  step_by op key (some v) = mem_get env key >>= λ obj. store_number key (stepped op obj v)

  -- numberIncrFunc and numberDecrFunc, which differ in the operation.
  unfoldable pub number_step : (lib.Float → lib.Float → lib.Float) → Handler
  number_step op [] = fail invalid_key
  number_step op (key ∷ []) = check_key key >> step_by op key (some lib.one)
  number_step op (key ∷ value ∷ []) = check_key key >> step_by op key (to_number lib value)
  number_step op _ = fail invalid_args

  unfoldable pub number_incr : Handler
  unfolding number_step
  number_incr = number_step lib.add

  unfoldable pub number_decr : Handler
  unfolding number_step
  number_decr = number_step lib.sub
