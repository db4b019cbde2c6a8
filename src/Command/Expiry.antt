-- ===== src/Command/Expiry.antt =====
-- commander/ttl_cmd: TTL.EXPIRE and TTL, and utils.ParseDurationToSeconds.
use fleare.Prelude.{ℕ, Bool, true, false, Option, none, some, [], ◌∷◌, ◌==◌, if◌then◌else◌}
use fleare.Prelude.Int.{ℤ, pos, wrap64, ◌*ℤ◌}
use fleare.Prelude.Bytes.{Bytes}
use fleare.Prelude.Decimal.{itoa, parse_int}
use fleare.Store
use fleare.Store.{Object}
use fleare.Exec.{Exec, pure, fail, invalid_args, ◌>>=◌, ◌>>◌}
use fleare.Shard.{Env, ShardManager, on_shard, mem_get, wal_put}
use fleare.Command.{Handler, check_key}

-- The text without its last byte, and that byte.
abbrev pub cons_front : Bytes × ℕ → ℕ → Bytes × ℕ
cons_front (front, last) c = (c ∷ front, last)

unfoldable pub split_last : ℕ → Bytes → Bytes × ℕ
split_last c [] = ([], c)
split_last c (d ∷ ds) = cons_front (split_last d ds) c

-- The seconds of a unit's suffix.
unfoldable pub unit_seconds : ℕ → Option ℕ
unit_seconds c =
    if c == b's'
    then some 1
    else if c == b'm'
    then some 60
    else if c == b'h'
    then some 3600
    else if c == b'd'
    then some 86400
    else none

-- The product is an int64.
abbrev pub scaled : Option ℕ → Option ℤ → Option ℤ
scaled (some unit) (some n) = some (wrap64 (n *ℤ pos unit))
scaled _ _ = none

abbrev pub or_scaled : Option ℤ → Option ℤ → Option ℤ
or_scaled none other = other
or_scaled (some n) other = some n

-- ParseDurationToSeconds; none is its error.
unfoldable pub parse_duration : Bytes → Option ℤ
unfolding split_last unit_seconds
parse_duration [] = none
parse_duration (c ∷ cs) =
    let (front, last) = split_last c cs in
    or_scaled (parse_int (c ∷ cs)) (scaled (unit_seconds last) (parse_int front))

module _ (env : Env) where
  -- The new expiration is logged with the object that a `Get` shows.
  abbrev pub log_visible : Bytes → Option Object → Exec ShardManager (Unit {0})
  log_visible key none = pure tt
  log_visible key (some obj) = wal_put env key obj

  abbrev pub mem_expire : Bytes → ℤ → Exec ShardManager Bool
  mem_expire key seconds = on_shard env key (Store.expire env.now env.now key seconds)

  abbrev pub log_expiry : Bytes → Bool → Exec ShardManager Bytes
  log_expiry key true = mem_get env key >>= log_visible key >> pure (b'1' ∷ [])
  log_expiry key false = pure (b'0' ∷ [])

  abbrev pub expire_valid : Bytes → Option ℤ → Exec ShardManager Bytes
  expire_valid key none = fail invalid_args
  expire_valid key (some seconds) = do
    check_key key
    success ← mem_expire key seconds
    log_expiry key success

  -- expireKey
  unfoldable pub expire_key : Handler
  expire_key (key ∷ seconds_str ∷ []) = expire_valid key (parse_duration seconds_str)
  expire_key _ = fail invalid_args

  -- ttlKey
  unfoldable pub ttl_key : Handler
  ttl_key (key ∷ []) = do
    check_key key
    ttl ← on_shard env key (Store.ttl env.now key)
    pure (itoa ttl)
  ttl_key _ = fail invalid_args
