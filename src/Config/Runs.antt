-- ===== src/Config/Runs.antt =====
-- The theorems on config/config.go at a small configuration.
use fleare.Prelude.{◌≡◌, refl, true, false, some, List, [], ◌∷◌}
use fleare.Prelude.Int.{pos}
use fleare.Prelude.Bytes.{same, codes}
use fleare.Server.Sessions.{User, Users}
use fleare.Server.Sessions.Granted.{Admits}
use fleare.Config.{Account, Configuration, add_users, is_root_found, merged, merge_configs}
use fleare.Config.Merge.{user_of, Admits-merge_configs}

abbrev with_accounts : List Account → Configuration
with_accounts users = record {
  server = record { host = []; port = pos 0 };
  logging = record { level = []; file = [] };
  memory = record { max_size_mb = pos 0; eviction_policy = [] };
  security = record { enable_auth = true; auth_method = []; users = users };
  persistence = record { enable = false; path = []; after_write_count = pos 0 };
  shard = record { mode = []; shard_count = pos 2 };
  backup = record { enable = false; interval_minutes = pos 0; backup_dir = [] };
  misc = record { max_connections = pos 0; timeout_seconds = pos 0; strict_mode = true };
}

abbrev root_account : Account
root_account = record { username = codes "root"; password = codes "pw"; role = codes "root" }

abbrev configured : Configuration
configured = merged (with_accounts (root_account ∷ [])) (with_accounts [])

abbrev stored_users : Users
stored_users = add_users (root_account ∷ []) []

merges :
    merge_configs (with_accounts (root_account ∷ [])) (with_accounts []) []
    ≡ some (configured, stored_users)
unfolding merge_configs is_root_found same
merges = refl

Admits-merge_configs_example :
    ((user : User) × Admits stored_users false [] [] user)
    × Admits stored_users true (codes "root") (codes "pw") (user_of root_account)
Admits-merge_configs_example =
    Admits-merge_configs (with_accounts (root_account ∷ [])) (with_accounts []) configured []
      stored_users [] [] root_account merges refl tt (λ e. cc) (λ e. cc)
