-- ===== src/Shard/Durable.antt =====
-- The log of internal/shard/shard_manager.go against the memories: what it last says of a key, and
-- what the key's shard holds.
use fleare.Prelude.{
  ℕ, ◌≡◌, refl, sym, ◌∙◌, ◌⊎◌, inl, inr, true, false, Option, none, some, Option-cases, Bool-cases,
  arith,
}
use fleare.Prelude.Int.{ℤ, ◌≤ℤ◌}
use fleare.Prelude.Bytes.{Bytes, same, same_refl, same→eq}
use fleare.Prelude.Dict.{lookup}
use fleare.Store.{Object, Memory, is_zero}
use fleare.Wal.{Entry}
use fleare.Exec.{ok, crash, ◌>>◌}
use fleare.Exec.Keeps.{Keeps}
use fleare.Shard.{Env, ShardManager, shard_by_key, call_on, on_shard, send_entry}
use fleare.Shard.Access.{
  stored, effect, logged, logged-append, Local, stored-on_shard, stored-on_shard_ne,
}

-- The object has an expiration time, and it is reached.
abbrev pub Gone : ℤ → Option Object → Type 0
Gone now none = ⊥
Gone now (some obj) = (is_zero obj.timestamp ≡ false) × (obj.timestamp ≤ℤ now)

abbrev pub Agrees : ℤ → Option Object → Option Object → Type 0
Agrees now held said = (held ≡ said) ⊎ ((held ≡ none) × Gone now said)

pub record Durable (env : Env) (sm : ShardManager) : Type 0 where
  pub at : (j : Bytes) → Agrees env.now (stored env sm j) (logged sm.log j)

-- The channel takes every write.
abbrev pub Accepting : Env → Type 0
Accepting env = (n : ℕ) → env.accepts n ≡ true

-- As time goes on the log keeps agreeing.
pub Gone-later : (now later : ℤ) (o : Option Object) → now ≤ℤ later → Gone now o → Gone later o
Gone-later now later none h g = g
Gone-later now later (some obj) h g = (g.0, omega arith)

log-call_on :
    {A : Type 0} (f : Memory → A × Memory) (id : Bytes) (o : Option Memory) (sm : ShardManager)
    → (call_on f id o sm).1.log ≡ sm.log
log-call_on f id none sm = refl
log-call_on f id (some m) sm = refl

module _ (env : Env) where
  pub log-on_shard :
      {A : Type 0} (key : Bytes) (f : Memory → A × Memory) (sm : ShardManager)
      → (on_shard env key f sm).1.log ≡ sm.log
  unfolding on_shard
  log-on_shard key f sm = log-call_on f _ (shard_by_key env key sm) sm

  pub on_shard-crash :
      {A : Type 0} (key : Bytes) (f : Memory → A × Memory) (sm : ShardManager)
      → shard_by_key env key sm ≡ none
      → on_shard env key f sm ≡ (crash, sm)
  unfolding on_shard
  on_shard-crash key f sm e = rw (e, call_on)

  -- Every key but one agrees.
  abbrev pub But : Bytes → ShardManager → Type 0
  But key sm = (j : Bytes) → same key j ≡ false → Agrees env.now (stored env sm j) (logged sm.log j)

  pub But-on_shard :
      {A : Type 0} (key : Bytes) (f : Memory → A × Memory) (sm : ShardManager)
      → Local key f
      → But key sm
      → But key (on_shard env key f sm).1
  But-on_shard key f sm local b j n =
      rw (stored-on_shard_ne env key j f sm local n, log-on_shard key f sm) (b j n)

  pub on_shard-But :
      {A : Type 0} (key : Bytes) (f : Memory → A × Memory) (sm : ShardManager)
      → Local key f
      → Durable env sm
      → But key (on_shard env key f sm).1
  on_shard-But key f sm local d = But-on_shard key f sm local (λ j n. d.at j)

  pub Durable-all :
      (key : Bytes) (sm : ShardManager)
      → But key sm
      → Agrees env.now (stored env sm key) (logged sm.log key)
      → Durable env sm
  Durable-all key sm b a = record {
    at = λ j. elim (Bool-cases (same key j)) [ inl e ↦ rw (← same→eq key j e) a | inr n ↦ b j n ];
  }

  -- A method keeps the agreement if it does so for its own key.
  pub on_shard-Durable :
      {A : Type 0} (key : Bytes) (f : Memory → A × Memory)
      → Local key f
      → ((m : Memory) (said : Option Object)
          → Agrees env.now (lookup key m) said
          → Agrees env.now (lookup key (f m).1) said)
      → Keeps (Durable env) (on_shard env key f)
  on_shard-Durable key f local own = record {
    at = λ sm d. elim (Option-cases (shard_by_key env key sm)) [
      | inl missing ↦ rw (on_shard-crash key f sm missing) d
      | inr (m, found) ↦
          let before : Agrees env.now (lookup key m) (logged sm.log key) = rw found at (d.at key) in
          Durable-all key (on_shard env key f sm).1 (on_shard-But key f sm local d) (
            rw ((stored-on_shard env key f sm m found).1, log-on_shard key f sm)
              (own m (logged sm.log key) before))
    ];
  }

  -- An entry that says of its key what is stored brings the log up to date.
  pub send_entry-Durable :
      (e : Entry) (sm : ShardManager)
      → Accepting env
      → But e.key sm
      → effect e (logged sm.log e.key) ≡ stored env sm e.key
      → Durable env (send_entry env e sm).1
  unfolding send_entry
  send_entry-Durable e sm acc b says = rw (acc sm.write_count) (
      Durable-all e.key _ (λ j n. rw (logged-append none sm.log e j, n) (b j n))
        (inl (rw (logged-append none sm.log e e.key, same_refl e.key) (sym says))))

  -- A method call and then an entry about the same key, as the handlers make them. Before it,
  -- every other key agrees.
  pub commit-But :
      {A : Type 0} (f : Memory → A × Memory) (e : Entry) (sm : ShardManager) (m : Memory)
      → Accepting env
      → Local e.key f
      → ((m : Memory) (said : Option Object) → effect e said ≡ lookup e.key (f m).1)
      → shard_by_key env e.key sm ≡ some m
      → But e.key sm
      → Durable env ((on_shard env e.key f >> send_entry env e) sm).1
  commit-But f e sm m acc local says found b =
      let (answer, now_stored) = stored-on_shard env e.key f sm m found in
      answered f e sm answer (
        send_entry-Durable e (on_shard env e.key f sm).1 acc (But-on_shard e.key f sm local b)
          (says m _ ∙ sym now_stored))
    where
      answered :
          {A : Type 0} (f : Memory → A × Memory) (e : Entry) (sm : ShardManager) {a : A}
          → (on_shard env e.key f sm).0 ≡ ok a
          → Durable env (send_entry env e (on_shard env e.key f sm).1).1
          → Durable env ((on_shard env e.key f >> send_entry env e) sm).1
      answered f e sm r d = rw r d

  pub commit-Durable :
      {A : Type 0} (f : Memory → A × Memory) (e : Entry)
      → Accepting env
      → Local e.key f
      → ((m : Memory) (said : Option Object) → effect e said ≡ lookup e.key (f m).1)
      → Keeps (Durable env) (on_shard env e.key f >> send_entry env e)
  commit-Durable f e acc local says = record {
    at = λ sm d. elim (Option-cases (shard_by_key env e.key sm)) [
      | inl missing ↦ rw (on_shard-crash e.key f sm missing) d
      | inr (m, found) ↦ commit-But f e sm m acc local says found (λ j n. d.at j)
    ];
  }
