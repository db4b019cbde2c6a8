-- ===== src/Command/Runs.antt =====
-- The theorems on commander/ at a few requests.
use fleare.Prelude.{false, ◌==◌, ltb, leb, ℕ, ◌≡◌, refl, true, none, some, List, [], ◌∷◌, arith}
use fleare.Prelude.Int.{pos, negsuc}
use fleare.Prelude.Bytes.{Bytes}
use fleare.Exec.{ok}
use fleare.Json.{Library, str}
use fleare.Shard.{Env, new_shard_manager}
use fleare.Shard.Durable.{Durable}
use fleare.Shard.Restart.{new_shard_manager-Routed, new_shard_manager-Durable}
use fleare.Command.Common.{set_key, get_key}
use fleare.Command.Text.{str_set, str_get, str_append, get_range}
use fleare.Command.Text.Range.{get_range-substring, get_range-panics}
use fleare.Command.RoundTrip.{get_key-set_key, str_get-str_append}
use fleare.Command.Requests.{Name, set_name, expire_name, serve}
use fleare.Command.Requests.Durable.{Served, serve-Durable}

abbrev in_second : ℕ → Env
in_second n = record { hash_key = λ key. 0; now = pos n; accepts = λ i. true; strict_mode = false }

-- Every text is JSON for a string, and there are no numbers.
abbrev strings_only : Library
strings_only = record {
  Float = ℕ;
  unmarshal = λ s. some (str s);
  marshal = λ v. none;
  valid = λ s. true;
  parse_float = λ s. none;
  of_int = λ i. 0;
  float_eq = λ a b. a == b;
  float_lt = λ a b. ltb a b;
  float_le = λ a b. leb a b;
  show = λ v. [];
  parse_bool = λ s. none;
  equal_fold = λ a b. false;
  one = 1;
  add = λ a b. a;
  sub = λ a b. a;
  runes = λ s. s;
  of_runes = λ s. s;
}

abbrev a_key : Bytes
a_key = b'a' ∷ []

abbrev set_and_expire : List (Env × (Name × List Bytes))
set_and_expire =
    (in_second 100, (set_name, a_key ∷ (b'1' ∷ []) ∷ []))
    ∷ (in_second 101, (expire_name, a_key ∷ (b'5' ∷ b'0' ∷ []) ∷ []))
    ∷ []

set_and_expire-Served : Served (in_second 99) set_and_expire (in_second 102)
set_and_expire-Served = (
  (refl, omega arith),
  ((λ n. refl), (omega arith, omega arith)),
  ((refl, omega arith), ((λ n. refl), (omega arith, omega arith)), (refl, omega arith)),
)

serve-Durable_example :
    Durable
      (in_second 102)
      (serve strings_only set_and_expire (new_shard_manager (in_second 99).hash_key 2))
serve-Durable_example =
    serve-Durable strings_only (in_second 99) set_and_expire (in_second 102)
      (new_shard_manager (in_second 99).hash_key 2) set_and_expire-Served
      (new_shard_manager-Durable (in_second 99) 2)

get_key-set_key_example :
    (get_key
      (in_second 7)
      strings_only
      (a_key ∷ [])
      (set_key
        (in_second 7)
        (a_key ∷ (b'x' ∷ []) ∷ [])
        (new_shard_manager (in_second 7).hash_key 2)).1).0
    ≡ ok (b'x' ∷ [])
unfolding fleare.Command.is_valid_key
get_key-set_key_example =
    get_key-set_key (in_second 7) strings_only a_key (b'x' ∷ [])
      (new_shard_manager (in_second 7).hash_key 2) (new_shard_manager-Routed (in_second 7) 1) refl

str_get-str_append_example :
    (str_get
      (in_second 7)
      (a_key ∷ [])
      (str_append
        (in_second 7)
        (a_key ∷ (b'y' ∷ []) ∷ (b'z' ∷ []) ∷ [])
        (str_set
          (in_second 7)
          (a_key ∷ (b'x' ∷ []) ∷ [])
          (new_shard_manager (in_second 7).hash_key 2)).1).1).0
    ≡ ok (b'x' ∷ b'y' ∷ b'z' ∷ [])
unfolding fleare.Command.is_valid_key
str_get-str_append_example =
    str_get-str_append (in_second 7) a_key (b'x' ∷ []) ((b'y' ∷ []) ∷ (b'z' ∷ []) ∷ [])
      (new_shard_manager (in_second 7).hash_key 2) (new_shard_manager-Routed (in_second 7) 1) refl

get_range-substring_example : get_range (1 ∷ 2 ∷ 3 ∷ 4 ∷ []) (pos 1) (pos 2) ≡ some (2 ∷ 3 ∷ [])
get_range-substring_example =
    get_range-substring (1 ∷ 2 ∷ 3 ∷ 4 ∷ []) 1 2 (omega arith) (omega arith) (omega arith)

get_range-panics_example : get_range (1 ∷ 2 ∷ []) (negsuc 4) (pos 2) ≡ none
get_range-panics_example = get_range-panics (1 ∷ 2 ∷ []) 4 2 (omega arith) (omega arith)
