-- ===== src/Command/Durable/Expiry.antt =====
-- TTL and TTL.EXPIRE of commander/ttl_cmd: the agreement of the log and the memory.
use fleare.Prelude.{
  ℕ, zero, suc, ◌≡◌, refl, sym, ◌∙◌, Bool, true, false, Option, none, some, List, [], ◌∷◌, inl, inr,
  Option-cases, arith,
}
use fleare.Prelude.Int.{ℤ, pos, negsuc, ◌+ℤ◌, ◌*ℤ◌, wrap64, wrap64-IsInt64, IsInt64}
use fleare.Prelude.Bytes.{Bytes, same_refl}
use fleare.Prelude.Dict.{lookup, lookup-insert, lookup-without}
use fleare.Prelude.Decimal.{parse_int, number, signed, unsigned}
use fleare.Store.{Object, Memory, new_stamp, past, due, get, expire}
use fleare.Wal.{update_op}
use fleare.Exec.{Exec, Outcome, ok, err, crash, on_outcome, pure, ◌>>=◌, ◌>>◌}
use fleare.Exec.Keeps.{Keeps, Keeps-then, keeps_rules}
use fleare.Shard.{Env, ShardManager, shard_by_key, mem_get}
use fleare.Shard.Access.{Local, stored, logged, stored-on_shard, shard_by_key-on_shard}
use fleare.Shard.Durable.{
  Durable, Accepting, Agrees, But, But-on_shard, on_shard-But, on_shard-crash, log-on_shard,
  send_entry-Durable, Durable-all,
}
use fleare.Command.{check_key}
use fleare.Command.Expiry.{
  log_visible, mem_expire, log_expiry, expire_valid, expire_key, ttl_key, parse_duration, scaled,
  or_scaled, unit_seconds, split_last,
}
use fleare.Command.Durable.{get-Local, mem_ttl-Durable}

expire-Local : (now later seconds : ℤ) (key : Bytes) → Local key (expire now later key seconds)
unfolding expire
expire-Local now later seconds key m j n = elim (Option-cases (lookup key m)) [
  | inl absent ↦ ground (arith, absent)
  | inr (obj, found) ↦ ground (
    arith,
    found,
    lookup-without key j m,
    lookup-insert key j (record obj { timestamp = new_stamp later seconds }) m,
  )
]

-- The timestamp that `Expire` gives is not past in the second that it was given in.
new_stamp-live :
    (now seconds : ℤ) (obj : Object)
    → IsInt64 now
    → IsInt64 seconds
    → past now (record obj { timestamp = new_stamp now seconds }) ≡ false
unfolding past wrap64 ◌+ℤ◌
new_stamp-live (pos a) (pos b) obj hn hs = ground arith
new_stamp-live (pos a) (negsuc b) obj hn hs = ground arith
new_stamp-live (negsuc a) (pos b) obj hn hs = ground arith
new_stamp-live (negsuc a) (negsuc b) obj hn hs = ground arith

number-IsInt64 : (neg : Bool) (o : Option ℕ) (n : ℤ) → signed neg o ≡ some n → IsInt64 n
number-IsInt64 neg none n e = ground arith
number-IsInt64 false (some k) n e = ground arith
number-IsInt64 true (some zero) n e = ground arith
number-IsInt64 true (some (suc k)) n e = ground arith

unsigned-IsInt64 : (neg : Bool) (s : Bytes) (n : ℤ) → unsigned neg s ≡ some n → IsInt64 n
unsigned-IsInt64 neg [] n e = ground arith
unsigned-IsInt64 neg (c ∷ cs) n e = number-IsInt64 neg (number 0 (c ∷ cs)) n e

parse_int-IsInt64 : (s : Bytes) (n : ℤ) → parse_int s ≡ some n → IsInt64 n
unfolding parse_int
parse_int-IsInt64 [] n e = ground arith
parse_int-IsInt64 (c ∷ cs) n e = ground (
  arith,
  unsigned-IsInt64 true cs n,
  unsigned-IsInt64 false cs n,
  unsigned-IsInt64 false (c ∷ cs) n,
)

scaled-IsInt64 : (u : Option ℕ) (o : Option ℤ) (n : ℤ) → scaled u o ≡ some n → IsInt64 n
scaled-IsInt64 none o n e = ground arith
scaled-IsInt64 (some u) none n e = ground arith
scaled-IsInt64 (some u) (some k) n e = ground (arith, wrap64-IsInt64 (k *ℤ pos u))

-- An accepted duration is an int64.
parse_duration-IsInt64 : (s : Bytes) (n : ℤ) → parse_duration s ≡ some n → IsInt64 n
unfolding parse_duration
parse_duration-IsInt64 [] n e = ground arith
parse_duration-IsInt64 (c ∷ cs) n e =
    either (parse_int (c ∷ cs)) _ n (parse_int-IsInt64 (c ∷ cs) n)
      (scaled-IsInt64 (unit_seconds (split_last c cs).1) (parse_int (split_last c cs).0) n) e
  where
    either :
        (a b : Option ℤ) (n : ℤ)
        → (a ≡ some n → IsInt64 n)
        → (b ≡ some n → IsInt64 n)
        → or_scaled a b ≡ some n
        → IsInt64 n
    either none b n h k e = k e
    either (some x) b n h k e = h e

-- What is kept or dropped by an `Expire` that fails.
expire-own :
    (now seconds : ℤ) (key : Bytes) (m : Memory) (said : Option Object)
    → (expire now now key seconds m).0 ≡ false
    → Agrees now (lookup key m) said
    → Agrees now (lookup key (expire now now key seconds m).1) said
unfolding expire due
expire-own now seconds key m said e a = ground (arith, lookup-without key key m, same_refl key)

abbrev shown : Option Object → Bool
shown none = false
shown (some obj) = true

-- After an `Expire` that succeeds, a `Get` in that second shows what is stored.
expire-get :
    (now seconds : ℤ) (key : Bytes) (m : Memory)
    → IsInt64 now
    → IsInt64 seconds
    → (expire now now key seconds m).0 ≡ true
    → (shown (get now key (expire now now key seconds m).1).0 ≡ true)
      × ((get now key (expire now now key seconds m).1).0
          ≡ lookup key (get now key (expire now now key seconds m).1).1)
unfolding expire get
expire-get now seconds key m hn hs e = elim (Option-cases (lookup key m)) [
  | inl absent ↦ ground (arith, absent)
  | inr (obj, found) ↦ ground (
    arith,
    found,
    new_stamp-live now seconds obj hn hs,
    lookup-insert key key (record obj { timestamp = new_stamp now seconds }) m,
    same_refl key,
  )
]

module _ (env : Env) where
  pub ttl_key-Durable : (args : List Bytes) → Keeps (Durable env) (ttl_key env args)
  unfolding ttl_key
  ttl_key-Durable (key ∷ []) = search (keeps_rules, mem_ttl-Durable)
  ttl_key-Durable _ = search keeps_rules

  -- The logged object is there, and is what is stored.
  log_visible-Durable :
      (key : Bytes) (o : Option Object) (sm : ShardManager)
      → Accepting env
      → But env key sm
      → shown o ≡ true
      → o ≡ stored env sm key
      → Durable env (log_visible env key o sm).1
  log_visible-Durable key none sm acc b h e = ground (arith, h)
  log_visible-Durable key (some obj) sm acc b h e =
      send_entry-Durable env (record { op = update_op; key = key; object = some obj }) sm acc b e

  answered :
      {A : Type 0} (m : Exec ShardManager A) (f : A → Exec ShardManager (Unit {0})) (reply : Bytes)
      (sm : ShardManager) {a : A}
      → (m sm).0 ≡ ok a
      → Durable env (f a (m sm).1).1
      → Durable env ((m >>= f >> pure reply) sm).1
  answered m f reply sm {a} e d = rw e (then_pure (f a (m sm).1) d)
    where
      then_pure :
          (r : Outcome (Unit {0}) × ShardManager)
          → Durable env r.1
          → Durable env (on_outcome r (λ u. pure reply)).1
      then_pure (ok u, sm) d = d
      then_pure (err e, sm) d = d
      then_pure (crash, sm) d = d

  log_expiry-Durable :
      (key : Bytes) (sm : ShardManager) (m : Memory)
      → Accepting env
      → shard_by_key env key sm ≡ some m
      → But env key sm
      → shown (get env.now key m).0 ≡ true
      → (get env.now key m).0 ≡ lookup key (get env.now key m).1
      → Durable env (log_expiry env key true sm).1
  log_expiry-Durable key sm m acc found b h e =
      let (answer, now_stored) = stored-on_shard env key (get env.now key) sm m found in
      answered (mem_get env key) (log_visible env key) (b'1' ∷ []) sm answer (
        log_visible-Durable key (get env.now key m).0 (mem_get env key sm).1 acc
          (But-on_shard env key (get env.now key) sm (get-Local env.now key) b) h
          (e ∙ sym now_stored))

  replied :
      {A : Type 0} (m : Exec ShardManager A) (f : A → Exec ShardManager Bytes) (sm : ShardManager)
      {a : A}
      → (m sm).0 ≡ ok a
      → Durable env (f a (m sm).1).1
      → Durable env ((m >>= f) sm).1
  replied m f sm e d = rw e d

  abbrev method : Bytes → ℤ → Memory → Bool × Memory
  method key seconds = expire env.now env.now key seconds

  expired-Durable :
      (key : Bytes) (seconds : ℤ)
      → Accepting env
      → IsInt64 env.now
      → IsInt64 seconds
      → Keeps (Durable env) (mem_expire env key seconds >>= log_expiry env key)
  expired-Durable key seconds acc hn hs = record {
    at = λ sm d. elim (Option-cases (shard_by_key env key sm)) [
      | inl missing ↦ rw (on_shard-crash env key (method key seconds) sm missing) d
      | inr (m, found) ↦
          replied (mem_expire env key seconds) (log_expiry env key) sm
            (stored-on_shard env key (method key seconds) sm m found).0
            (logged_or_not key seconds hs m ((method key seconds m).0) sm refl found d)
    ];
  }
    where
      logged_or_not :
          (key : Bytes) (seconds : ℤ) (hs : IsInt64 seconds) (m : Memory) (success : Bool)
          (sm : ShardManager)
          → (method key seconds m).0 ≡ success
          → shard_by_key env key sm ≡ some m
          → Durable env sm
          → Durable env (log_expiry env key success (mem_expire env key seconds sm).1).1
      logged_or_not key seconds hs m false sm e found d =
          let before : Agrees env.now (lookup key m) (logged sm.log key) = rw found at (d.at key) in
          Durable-all env key (mem_expire env key seconds sm).1
            (on_shard-But env key (method key seconds) sm (expire-Local env.now env.now seconds key)
              d)
            (rw
              (
                (stored-on_shard env key (method key seconds) sm m found).1,
                log-on_shard env key (method key seconds) sm,
              )
              (expire-own env.now seconds key m (logged sm.log key) e before))
      logged_or_not key seconds hs m true sm e found d =
          let (there, shows) = expire-get env.now seconds key m hn hs e in
          log_expiry-Durable key (mem_expire env key seconds sm).1 (method key seconds m).1 acc
            (shard_by_key-on_shard env key (method key seconds) sm m found)
            (on_shard-But env key (method key seconds) sm (expire-Local env.now env.now seconds key)
              d)
            there shows

  expire_valid-Durable :
      (key : Bytes) (o : Option ℤ)
      → Accepting env
      → IsInt64 env.now
      → ((n : ℤ) → o ≡ some n → IsInt64 n)
      → Keeps (Durable env) (expire_valid env key o)
  expire_valid-Durable key none acc hn h = search keeps_rules
  expire_valid-Durable key (some seconds) acc hn h =
      Keeps-then (check_key key) (mem_expire env key seconds >>= log_expiry env key)
        (search keeps_rules) (expired-Durable key seconds acc hn (h seconds refl))

  pub expire_key-Durable :
      (args : List Bytes)
      → Accepting env
      → IsInt64 env.now
      → Keeps (Durable env) (expire_key env args)
  unfolding expire_key
  expire_key-Durable (key ∷ seconds_str ∷ []) acc hn =
      expire_valid-Durable key (parse_duration seconds_str) acc hn
        (parse_duration-IsInt64 seconds_str)
  expire_key-Durable _ acc hn = search keeps_rules
