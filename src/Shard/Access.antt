-- ===== src/Shard/Access.antt =====
-- What is stored under a key across the shards of internal/shard/shard_manager.go, and what the
-- log last says of it.
use fleare.Prelude.{
  ◌≡◌, refl, sym, ap, ◌∙◌, inl, inr, false, Option, none, some, List, [], ◌∷◌, ◌++◌, if◌then◌else◌,
  ◌==◌, Bool-cases,
}
use fleare.Prelude.Bytes.{Bytes, same, same_refl, same→eq}
use fleare.Prelude.Dict.{lookup, lookup-insert}
use fleare.Ring.{get_node}
use fleare.Store.{Object, Memory}
use fleare.Wal.{Entry, delete_op}
use fleare.Exec.{ok}
use fleare.Shard.{Env, ShardManager, shard_by_key, call_on, on_shard}

abbrev pub or_empty : Option Memory → Memory
or_empty none = []
or_empty (some m) = m

-- The entry of a key in the memory of its shard.
abbrev pub stored : Env → ShardManager → Bytes → Option Object
stored env sm j = lookup j (or_empty (shard_by_key env j sm))

-- The effect of one entry of the log on what is known of its key.
abbrev pub effect : Entry → Option Object → Option Object
effect e before =
    if e.op == delete_op then none else elim e.object [ none ↦ before | some obj ↦ some obj ]

unfoldable pub logged_after : Option Object → List Entry → Bytes → Option Object
logged_after o [] j = o
logged_after o (e ∷ es) j = logged_after (if same e.key j then effect e o else o) es j

-- What the last entries of the log say of a key.
abbrev pub logged : List Entry → Bytes → Option Object
logged log j = logged_after none log j

pub logged-append :
    (o : Option Object) (es : List Entry) (e : Entry) (j : Bytes)
    → logged_after o (es ++ e ∷ []) j
      ≡ (if same e.key j then effect e (logged_after o es j) else logged_after o es j)
unfolding logged_after
logged-append o [] e j = refl
logged-append o (d ∷ es) e j = logged-append (if same d.key j then effect d o else o) es e j

-- A method that changes at most the entry of `key`.
abbrev pub Local : {A : Type 0} → Bytes → (Memory → A × Memory) → Type 0
Local key f = (m : Memory) (j : Bytes) → same key j ≡ false → lookup j (f m).1 ≡ lookup j m

-- A method call on a shard changes the entry of no other key, in no shard.
lookup-call_on_ne :
    {A : Type 0} (env : Env) (key j : Bytes) (f : Memory → A × Memory) (o : Option Memory)
    (sm : ShardManager)
    → shard_by_key env key sm ≡ o
    → Local key f
    → same key j ≡ false
    → stored env (call_on f (get_node env.hash_key key sm.ring) o sm).1 j ≡ stored env sm j
lookup-call_on_ne env key j f none sm e local n = refl
lookup-call_on_ne env key j f (some m) sm e local n =
    let id = get_node env.hash_key key sm.ring in
    let id' = get_node env.hash_key j sm.ring in
    rw (lookup-insert id id' (f m).1 sm.shards) (elim (Bool-cases (same id id')) [
      | inl one ↦ rw one (
          local m j n
          ∙ ap (λ o. lookup j (or_empty o))
              (sym e ∙ ap (λ (i : Bytes). lookup i sm.shards) (same→eq id id' one)))
      | inr two ↦ rw two refl
    ])

module _ (env : Env) where
  pub stored-on_shard_ne :
      {A : Type 0} (key j : Bytes) (f : Memory → A × Memory) (sm : ShardManager)
      → Local key f
      → same key j ≡ false
      → stored env (on_shard env key f sm).1 j ≡ stored env sm j
  unfolding on_shard
  stored-on_shard_ne key j f sm local n =
      lookup-call_on_ne env key j f (shard_by_key env key sm) sm refl local n

  -- The call returns what the method returns, and the key has the entry that the method leaves.
  pub stored-on_shard :
      {A : Type 0} (key : Bytes) (f : Memory → A × Memory) (sm : ShardManager) (m : Memory)
      → shard_by_key env key sm ≡ some m
      → ((on_shard env key f sm).0 ≡ ok (f m).0)
        × (stored env (on_shard env key f sm).1 key ≡ lookup key (f m).1)
  unfolding on_shard
  stored-on_shard key f sm m found =
      let id = get_node env.hash_key key sm.ring in
      rw (found, call_on) (refl, rw (lookup-insert id id (f m).1 sm.shards, same_refl id) refl)

  -- The key's shard is then the memory that the method leaves.
  pub shard_by_key-on_shard :
      {A : Type 0} (key : Bytes) (f : Memory → A × Memory) (sm : ShardManager) (m : Memory)
      → shard_by_key env key sm ≡ some m
      → shard_by_key env key (on_shard env key f sm).1 ≡ some (f m).1
  unfolding on_shard
  shard_by_key-on_shard key f sm m found =
      let id = get_node env.hash_key key sm.ring in
      rw (found, call_on) (rw (lookup-insert id id (f m).1 sm.shards, same_refl id) refl)
