-- ===== src/Command.antt =====
-- commander/: what the commands share, and utils.IsValidKey of internal/utils/utils.go.
-- A request's arguments are the strings of a protobuf list, which decodes to nil when it is empty:
-- `cmd.C.Args == nil` is the test for the empty list. Of a response the result's bytes are modelled.
pub mod Common
pub mod Expiry
pub mod Text
pub mod Num
pub mod Lists
pub mod Maps
pub mod Documents
pub mod Find
pub mod Durable
pub mod Requests
pub mod RoundTrip
mod Runs
use fleare.Prelude.{ℕ, Bool, ◌&&◌, leb, length, List, [], ◌∷◌}
use fleare.Prelude.Bytes.{Bytes}
use fleare.Store.{Object}
use fleare.Prelude.Int.{pos}
use fleare.Exec.{Exec, require, invalid_key, ◌>>◌}
use fleare.Shard.{Env, ShardManager, mem_set, mem_delete, wal_put, wal_delete}

-- The length of a key is counted in bytes.
unfoldable pub is_valid_key : Bytes → Bool
is_valid_key s = leb 1 (length s) && leb (length s) 200

abbrev pub Handler : Type 0
Handler = List Bytes → Exec ShardManager Bytes

abbrev pub check_key : Bytes → Exec ShardManager (Unit {0})
check_key key = require (is_valid_key key) invalid_key

-- An object that does not expire, as the handlers log it.
abbrev pub plain : Bytes → ℕ → Object
plain value kind = record { value = value; kind = kind; timestamp = pos 0 }

module _ (env : Env) where
  -- `shard.M.Set(key, value, kind)` and then `Wal().Put` of the same value and kind.
  unfoldable pub save : Bytes → Bytes → ℕ → Exec ShardManager (Unit {0})
  save key value kind = mem_set env key value kind >> wal_put env key (plain value kind)

  -- `shard.M.Delete(key)` and then `Wal().Delete(key)`.
  unfoldable pub remove : Bytes → Exec ShardManager (Unit {0})
  remove key = mem_delete env key >> wal_delete env key
