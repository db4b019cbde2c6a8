-- ===== src/Store.antt =====
-- internal/store/mem.go: one shard's map of objects, with expiry. The objects are those of
-- internal/comm/store_obj.pb.go, their kinds those of internal/store/object.go.
-- A method takes the clock readings (`time.Now().Unix()`) that it makes, and returns the map
-- after it. Each holds the mutex throughout, but `Get`, which deletes behind it, and `TTL`, which
-- deletes under the read lock. Go's errors of these methods are always nil and are left out.
pub mod View
pub mod Expiry
pub mod Unique
mod Runs
use fleare.Prelude.{
  ℕ, zero, suc, ◌+◌, Bool, true, false, not, ◌&&◌, Option, none, some, List, [], ◌∷◌, length, ◌==◌,
  if◌then◌else◌,
}
use fleare.Prelude.Int.{ℤ, pos, negsuc, ◌+ℤ◌, ◌-ℤ◌, ltb_ℤ, leb_ℤ, wrap64, wrap32}
use fleare.Prelude.Bytes.{Bytes}
use fleare.Prelude.Dict.{lookup, insert, without}

-- store.Kind, a uint32.
abbrev pub default_kind : ℕ
default_kind = 0

abbrev pub string_kind : ℕ
string_kind = 1

abbrev pub number_kind : ℕ
number_kind = 2

abbrev pub map_kind : ℕ
map_kind = 3

abbrev pub list_kind : ℕ
list_kind = 5

abbrev pub json_kind : ℕ
json_kind = 6

-- comm.Object; a timestamp of 0 means that the object never expires.
pub record Object : Type 0 where
  pub value : Bytes
  pub kind : ℕ
  pub timestamp : ℤ

abbrev pub Memory : Type 0
Memory = List (Bytes × Object)

abbrev pub new_memory : Memory
new_memory = []

-- `obj.Timestamp > 0 && time.Now().Unix() > obj.Timestamp`, the test of `Get`.
unfoldable pub past : ℤ → Object → Bool
past now obj = ltb_ℤ (pos 0) obj.timestamp && ltb_ℤ obj.timestamp now

-- `obj.Timestamp > 0 && time.Now().Unix() >= obj.Timestamp`, of `Expire` and `CleanupExpired`.
unfoldable pub due : ℤ → Object → Bool
due now obj = ltb_ℤ (pos 0) obj.timestamp && leb_ℤ obj.timestamp now

unfoldable pub length_of : Memory → ℤ
length_of m = wrap32 (length m)

-- `Get` is two steps. The first reads the object under the read lock, and compares its time; it gives
-- what `Get` returns, and whether the key is to be deleted.
unfoldable pub get_read : ℤ → Bytes → Memory → Option Object × Bool
unfolding past
get_read now key m = elim (lookup key m) [
  | none ↦ (none, false)
  | some obj ↦ if past now obj then (none, true) else (some obj, false)
]

-- The second deletes the key, without a lock, from the memory as it is by then.
unfoldable pub get_drop : Bool → Bytes → Memory → Memory
get_drop expired key m = if expired then without key m else m

-- `Get` with no step of another goroutine between the two.
unfoldable pub get : ℤ → Bytes → Memory → Option Object × Memory
unfolding get_read get_drop
get now key m = let (r, expired) = get_read now key m in (r, get_drop expired key m)

unfoldable pub set : Bytes → Bytes → ℕ → Memory → Memory
set key value kind m = insert key (record { value = value; kind = kind; timestamp = pos 0 }) m

unfoldable pub set_with_ttl : ℤ → Bytes → Bytes → ℕ → ℤ → Memory → Memory
set_with_ttl now key value kind ttl_seconds m =
    let expiration = if ltb_ℤ (pos 0) ttl_seconds then wrap64 (now +ℤ ttl_seconds) else pos 0 in
    insert key (record { value = value; kind = kind; timestamp = expiration }) m

unfoldable pub delete : Bytes → Memory → Bool × Memory
delete key m = elim (lookup key m) [ none ↦ (false, m) | some obj ↦ (true, without key m) ]

-- `obj.Timestamp == 0`
abbrev pub is_zero : ℤ → Bool
is_zero (pos n) = n == 0
is_zero (negsuc n) = false

unfoldable pub ttl : ℤ → Bytes → Memory → ℤ × Memory
ttl now key m = elim (lookup key m) [
  | none ↦ (negsuc 1, m)
  | some obj ↦
      if is_zero obj.timestamp
      then (negsuc 0, m)
      else if leb_ℤ obj.timestamp now
      then (negsuc 1, without key m)
      else (wrap64 (obj.timestamp -ℤ now), m)
]

-- No expiration, or the end of the seconds from a reading of the clock.
abbrev pub new_stamp : ℤ → ℤ → ℤ
new_stamp later ttl_seconds =
    if ltb_ℤ (pos 0) ttl_seconds then wrap64 (later +ℤ ttl_seconds) else pos 0

-- The two readings are those of the test and of the new expiration time. The object is changed in
-- place, through the pointer that the map holds.
unfoldable pub expire : ℤ → ℤ → Bytes → ℤ → Memory → Bool × Memory
unfolding due
expire now later key ttl_seconds m = elim (lookup key m) [
  | none ↦ (false, m)
  | some obj ↦
      if due now obj
      then (false, without key m)
      else (true, insert key (record obj { timestamp = new_stamp later ttl_seconds }) m)
]

-- The entries that `CleanupExpired` keeps, and how many it deletes.
unfoldable pub kept : ℤ → Memory → Memory
unfolding due
kept now [] = []
kept now ((k, obj) ∷ m) = let rest = kept now m in if due now obj then rest else (k, obj) ∷ rest

unfoldable pub deleted : ℤ → Memory → ℕ
unfolding due
deleted now [] = 0
deleted now ((k, obj) ∷ m) = deleted now m + (if due now obj then 1 else 0)

unfoldable pub cleanup_expired : ℤ → Memory → ℤ × Memory
unfolding kept deleted
cleanup_expired now m = (wrap32 (deleted now m), kept now m)
