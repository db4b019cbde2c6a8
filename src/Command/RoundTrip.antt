-- ===== src/Command/RoundTrip.antt =====
-- Commands of commander/ that undo, read or follow each other on one key.
use fleare.Prelude.{
  ℕ, ◌≡◌, refl, sym, ◌∙◌, ap, true, false, Option, some, List, [], ◌∷◌, ◌++◌, arith,
}
use mathlib.Core.List.{append_assoc, append-nil}
use fleare.Prelude.Bytes.{Bytes, same_refl}
use fleare.Prelude.Dict.{lookup, lookup-insert}
use fleare.Store.{Object, Memory, default_kind, string_kind, past, get, set}
use fleare.Exec.{ok, Exec, pure, ◌>>=◌, ◌>>◌}
use fleare.Json.{Library}
use fleare.Shard.{Env, ShardManager, shard_by_key, on_shard, mem_get, mem_set, send_entry, wal_put}
use fleare.Shard.Access.{stored-on_shard, shard_by_key-on_shard}
use fleare.Shard.Recovery.{Routed}
use fleare.Command.{is_valid_key, check_key, save, plain}
use fleare.Command.Common.{set_key, get_key, reply_value}
use fleare.Command.Text.{str_set, str_get, str_append, concat}

-- The action returns `a`, and the key's shard then is `m`.
abbrev pub Leaves :
    {A : Type 0} → Env → Bytes → Exec ShardManager A → ShardManager → A → Memory → Type 0
Leaves env key act sm a m = ((act sm).0 ≡ ok a) × (shard_by_key env key (act sm).1 ≡ some m)

-- The texts one behind the other.
abbrev pub joined : List Bytes → Bytes
joined [] = []
joined (text ∷ texts) = text ++ joined texts

concat-joined : (text : Bytes) (args : List Bytes) → concat text args ≡ text ++ joined args
unfolding concat
concat-joined text [] = sym (append-nil text)
concat-joined text (arg ∷ args) =
    concat-joined (text ++ arg) args ∙ append_assoc text arg (joined args)

module _ (env : Env) where
  on_shard-Leaves :
      {A : Type 0} (key : Bytes) (f : Memory → A × Memory) (sm : ShardManager) (m : Memory)
      → shard_by_key env key sm ≡ some m
      → Leaves env key (on_shard env key f) sm (f m).0 (f m).1
  on_shard-Leaves key f sm m e =
      ((stored-on_shard env key f sm m e).0, shard_by_key-on_shard env key f sm m e)

  bind-Leaves :
      {A B : Type 0} (key : Bytes) (act : Exec ShardManager A) (f : A → Exec ShardManager B)
      (sm : ShardManager) (a : A) (b : B) (m n : Memory)
      → Leaves env key act sm a m
      → Leaves env key (f a) (act sm).1 b n
      → Leaves env key (act >>= f) sm b n
  bind-Leaves key act f sm a b m n l k = rw (l.0) k

  check_key-Leaves :
      (key : Bytes) (sm : ShardManager) (m : Memory)
      → is_valid_key key ≡ true
      → shard_by_key env key sm ≡ some m
      → Leaves env key (check_key key) sm tt m
  check_key-Leaves key sm m v e = rw v (refl, e)

  save-Leaves :
      (key value : Bytes) (kind : ℕ) (sm : ShardManager) (m : Memory)
      → shard_by_key env key sm ≡ some m
      → Leaves env key (save env key value kind) sm tt (set key value kind m)
  unfolding save send_entry
  save-Leaves key value kind sm m e =
      bind-Leaves key (mem_set env key value kind) (λ u. wal_put env key (plain value kind)) sm tt
        tt (set key value kind m) (set key value kind m)
        (on_shard-Leaves key (λ m. (tt, set key value kind m)) sm m e)
        (refl, shard_by_key-on_shard env key (λ m. (tt {0}, set key value kind m)) sm m e)

  get-fresh :
      (key : Bytes) (obj : Object) (m : Memory)
      → lookup key m ≡ some obj
      → past env.now obj ≡ false
      → get env.now key m ≡ (some obj, m)
  unfolding get
  get-fresh key obj m found fresh = ground (arith, found, fresh)

  mem_get-Leaves :
      (key : Bytes) (obj : Object) (sm : ShardManager) (m : Memory)
      → shard_by_key env key sm ≡ some m
      → lookup key m ≡ some obj
      → past env.now obj ≡ false
      → Leaves env key (mem_get env key) sm (some obj) m
  mem_get-Leaves key obj sm m e found fresh =
      let (r, s) = on_shard-Leaves key (get env.now key) sm m e in
      let shown = get-fresh key obj m found fresh in
      (
        r ∙ ap (λ (o : Option Object × Memory). ok o.0) shown,
        s ∙ ap (λ (o : Option Object × Memory). some o.1) shown,
      )

  plain-fresh : (value : Bytes) (kind : ℕ) → past env.now (plain value kind) ≡ false
  unfolding past
  plain-fresh value kind = refl

  lookup-set :
      (key value : Bytes) (kind : ℕ) (m : Memory)
      → lookup key (set key value kind m) ≡ some (plain value kind)
  unfolding set
  lookup-set key value kind m = rw (lookup-insert key key (plain value kind) m, same_refl key) refl

  -- A handler that checks its key and then goes on.
  checked-Leaves :
      {A : Type 0} (key : Bytes) (act : Exec ShardManager A) (sm : ShardManager) (a : A)
      (m : Memory)
      → is_valid_key key ≡ true
      → Leaves env key act sm a m
      → Leaves env key (check_key key >> act) sm a m
  checked-Leaves key act sm a m v l = rw v l

  saved-Leaves :
      (key value : Bytes) (kind : ℕ) (sm : ShardManager) (m : Memory)
      → shard_by_key env key sm ≡ some m
      → Leaves env key (save env key value kind >> pure {A = Bytes} []) sm [] (set key value kind m)
  saved-Leaves key value kind sm m e =
      bind-Leaves key (save env key value kind) (λ u. pure []) sm tt [] (set key value kind m)
        (set key value kind m) (save-Leaves key value kind sm m e)
        (refl, (save-Leaves key value kind sm m e).1)

  -- A handler that checks its key, reads the object and goes on with it.
  read-Leaves :
      {A : Type 0} (key : Bytes) (f : Option Object → Exec ShardManager A) (obj : Object)
      (sm : ShardManager) (a : A) (m n : Memory)
      → is_valid_key key ≡ true
      → shard_by_key env key sm ≡ some m
      → lookup key m ≡ some obj
      → past env.now obj ≡ false
      → ((sm : ShardManager)
          → shard_by_key env key sm ≡ some m
          → Leaves env key (f (some obj)) sm a n)
      → Leaves env key (check_key key >> (mem_get env key >>= f)) sm a n
  read-Leaves key f obj sm a m n v e found fresh k =
      let shown = mem_get-Leaves key obj sm m e found fresh in
      checked-Leaves key (mem_get env key >>= f) sm a n v (
        bind-Leaves key (mem_get env key) f sm (some obj) a m n shown
          (k (mem_get env key sm).1 shown.1))

  -- If every key has a shard and the key is valid, GET after SET replies with the value set.
  pub get_key-set_key :
      (lib : Library) (key value : Bytes) (sm : ShardManager)
      → Routed env sm
      → is_valid_key key ≡ true
      → (get_key env lib (key ∷ []) (set_key env (key ∷ value ∷ []) sm).1).0 ≡ ok value
  unfolding get_key set_key
  get_key-set_key lib key value sm r v =
      let (m, found) = r.at key in
      let (done, e) =
        checked-Leaves key (save env key value default_kind >> pure {A = Bytes} []) sm [] _ v
          (saved-Leaves key value default_kind sm m found) in
      (read-Leaves key (λ o. pure (reply_value env lib o)) (plain value default_kind)
        (set_key env (key ∷ value ∷ []) sm).1 value _ _ v e (lookup-set key value default_kind m)
        (plain-fresh value default_kind) (λ sm e. (refl, e))).0

  str_set-Leaves :
      (key value : Bytes) (sm : ShardManager) (m : Memory)
      → is_valid_key key ≡ true
      → shard_by_key env key sm ≡ some m
      → Leaves env key (str_set env (key ∷ value ∷ [])) sm [] (set key value string_kind m)
  unfolding str_set
  str_set-Leaves key value sm m v e =
      checked-Leaves key (save env key value string_kind >> pure {A = Bytes} []) sm [] _ v
        (saved-Leaves key value string_kind sm m e)

  str_append-Leaves :
      (key value : Bytes) (more : List Bytes) (sm : ShardManager) (m : Memory)
      → is_valid_key key ≡ true
      → shard_by_key env key sm ≡ some (set key value string_kind m)
      → Leaves env key
          (str_append env (key ∷ more))
          sm
          []
          (set key (concat value more) string_kind (set key value string_kind m))
  unfolding str_append
  str_append-Leaves key value more sm m v e =
      read-Leaves key _ (plain value string_kind) sm [] (set key value string_kind m) _ v e
        (lookup-set key value string_kind m) (plain-fresh value string_kind)
        (λ sm e.
          saved-Leaves key (concat value more) string_kind sm (set key value string_kind m) e)

  -- If every key has a shard and the key is valid, then after STR.SET and STR.APPEND of any number
  -- of arguments STR.GET replies with the value followed by the arguments in their order.
  pub str_get-str_append :
      (key value : Bytes) (more : List Bytes) (sm : ShardManager)
      → Routed env sm
      → is_valid_key key ≡ true
      → (str_get env
          (key ∷ [])
          (str_append env (key ∷ more) (str_set env (key ∷ value ∷ []) sm).1).1).0
        ≡ ok (value ++ joined more)
  unfolding str_get
  str_get-str_append key value more sm r v =
      let (m, found) = r.at key in
      let sm1 = (str_set env (key ∷ value ∷ []) sm).1 in
      let sm2 = (str_append env (key ∷ more) sm1).1 in
      let (r1, e1) = str_set-Leaves key value sm m v found in
      let (r2, e2) = str_append-Leaves key value more sm1 m v e1 in
      (read-Leaves key _ (plain (concat value more) string_kind) sm2 (concat value more) _ _ v e2
        (lookup-set key (concat value more) string_kind (set key value string_kind m))
        (plain-fresh (concat value more) string_kind) (λ sm e. (refl, e))).0
      ∙ ap ok (concat-joined value more)

  -- What the store's method says of a key, once the key's shard is known.
  answers :
      {A : Type 0} (key : Bytes) (f : Memory → A × Memory) (reply : A → Bytes) (sm : ShardManager)
      (m : Memory)
      → is_valid_key key ≡ true
      → shard_by_key env key sm ≡ some m
      → ((check_key key >> (on_shard env key f >>= λ a. pure (reply a))) sm).0 ≡ ok (reply (f m).0)
  answers key f reply sm m v e =
      (checked-Leaves key (on_shard env key f >>= λ a. pure (reply a)) sm (reply (f m).0) (f m).1 v
        (bind-Leaves key (on_shard env key f) (λ a. pure (reply a)) sm (f m).0 (reply (f m).0)
          (f m).1 (f m).1 (on_shard-Leaves key f sm m e)
          (refl, (on_shard-Leaves key f sm m e).1))).0
