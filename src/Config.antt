-- ===== src/Config.antt =====
-- config/config.go: the configuration and the merging of an override into it, which also fills the
-- table of accounts. The reading of YAML is left out.
mod Runs
pub mod Merge
use fleare.Prelude.{
  ℕ, zero, suc, Bool, true, false, Option, none, some, List, [], ◌∷◌, ◌||◌, if◌then◌else◌,
}
use fleare.Prelude.Int.{ℤ, pos, negsuc}
use fleare.Prelude.Bytes.{Bytes, same}
use fleare.Server.Sessions.{Users, add, root}

pub record Endpoint : Type 0 where
  pub host : Bytes
  pub port : ℤ

pub record Logging : Type 0 where
  pub level : Bytes
  pub file : Bytes

pub record MemoryLimit : Type 0 where
  pub max_size_mb : ℤ
  pub eviction_policy : Bytes

pub record Account : Type 0 where
  pub username : Bytes
  pub password : Bytes
  pub role : Bytes

pub record Security : Type 0 where
  pub enable_auth : Bool
  pub auth_method : Bytes
  pub users : List Account

pub record Persistence : Type 0 where
  pub enable : Bool
  pub path : Bytes
  pub after_write_count : ℤ

pub record Sharding : Type 0 where
  pub mode : Bytes
  pub shard_count : ℤ

pub record Backup : Type 0 where
  pub enable : Bool
  pub interval_minutes : ℤ
  pub backup_dir : Bytes

pub record Misc : Type 0 where
  pub max_connections : ℤ
  pub timeout_seconds : ℤ
  pub strict_mode : Bool

pub record Configuration : Type 0 where
  pub server : Endpoint
  pub logging : Logging
  pub memory : MemoryLimit
  pub security : Security
  pub persistence : Persistence
  pub shard : Sharding
  pub backup : Backup
  pub misc : Misc

-- A setting of the override that is not Go's zero value replaces the other.
abbrev pub text_over : Bytes → Bytes → Bytes
text_over here [] = here
text_over here (c ∷ cs) = c ∷ cs

abbrev pub int_over : ℤ → ℤ → ℤ
int_over here (pos zero) = here
int_over here (pos (suc n)) = pos (suc n)
int_over here (negsuc n) = negsuc n

abbrev pub flag_over : Bool → Bool → Bool
flag_over here there = if there then there else here

abbrev pub list_over : List Account → List Account → List Account
list_over here [] = here
list_over here (u ∷ us) = u ∷ us

abbrev pub merge_security : Security → Security → Security
merge_security d o = record {
  enable_auth = flag_over d.enable_auth o.enable_auth;
  auth_method = text_over d.auth_method o.auth_method;
  users = list_over d.users o.users;
}

-- The loop over the users.
unfoldable pub add_users : List Account → Users → Users
add_users [] store = store
add_users (u ∷ us) store = add_users us (add u.username u.password u.role store)

unfoldable pub is_root_found : List Account → Bool
is_root_found [] = false
is_root_found (u ∷ us) = same u.username root || is_root_found us

abbrev pub merged : Configuration → Configuration → Configuration
merged d o = record {
  server = record {
    host = text_over d.server.host o.server.host;
    port = int_over d.server.port o.server.port;
  };
  logging = record {
    level = text_over d.logging.level o.logging.level;
    file = text_over d.logging.file o.logging.file;
  };
  memory = record {
    max_size_mb = int_over d.memory.max_size_mb o.memory.max_size_mb;
    eviction_policy = text_over d.memory.eviction_policy o.memory.eviction_policy;
  };
  security = merge_security d.security o.security;
  persistence = record {
    enable = flag_over d.persistence.enable o.persistence.enable;
    path = text_over d.persistence.path o.persistence.path;
    after_write_count = int_over d.persistence.after_write_count o.persistence.after_write_count;
  };
  shard = d.shard;
  backup = record {
    enable = flag_over d.backup.enable o.backup.enable;
    interval_minutes = int_over d.backup.interval_minutes o.backup.interval_minutes;
    backup_dir = text_over d.backup.backup_dir o.backup.backup_dir;
  };
  misc = record {
    max_connections = int_over d.misc.max_connections o.misc.max_connections;
    timeout_seconds = int_over d.misc.timeout_seconds o.misc.timeout_seconds;
    strict_mode = o.misc.strict_mode;
  };
}

-- MergeConfigs with the accounts before and after it; `none` where it ends the program.
unfoldable pub merge_configs :
    Configuration → Configuration → Users → Option (Configuration × Users)
merge_configs d o store =
    let users = list_over d.security.users o.security.users in
    if is_root_found users then some (merged d o, add_users users store) else none
