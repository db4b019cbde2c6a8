-- ===== src/Shard/Recovery.antt =====
-- RecoverMemory of internal/shard/shard_manager.go: what the shards hold after a restart.
use fleare.Prelude.{
  ◌≡◌, refl, sym, ◌∙◌, ◌⊎◌, inl, inr, Bool, true, false, Option, none, some, List, [], ◌∷◌,
  if◌then◌else◌, ◌==◌, Bool-cases, arith,
}
use fleare.Prelude.Int.{
  ℤ, pos, ◌-ℤ◌, ◌≤ℤ◌, ◌<ℤ◌, ltb_ℤ, wrap64, wrap64_id, IsInt64, -ℤ_parts, +ℤ-sub_cancel,
}
use fleare.Prelude.Bytes.{Bytes, same, same_refl, same→eq}
use fleare.Prelude.Dict.{lookup, insert, lookup-insert, lookup-without}
use fleare.Store.{Object, Memory, new_stamp, set, set_with_ttl, delete}
use fleare.Wal.{Entry, delete_op}
use fleare.Ring.{get_node}
use fleare.Exec.{Outcome, ok, on_outcome}
use fleare.Shard.{
  Env, ShardManager, shard_by_key, call_on, on_shard, restore, recover_as, recover_entry,
  recover_memory,
}
use fleare.Shard.Access.{stored, effect, logged_after, Local, stored-on_shard, stored-on_shard_ne}

-- The object that recovery makes of a logged one.
abbrev pub reloaded : Env → ℤ → Object → Object
reloaded env later obj = record obj {
  timestamp =
      if ltb_ℤ (pos 0) obj.timestamp
      then new_stamp later (wrap64 (obj.timestamp -ℤ env.now))
      else pos 0;
}

abbrev pub reload : Env → ℤ → Option Object → Option Object
reload env later none = none
reload env later (some obj) = some (reloaded env later obj)

-- Every key has a shard.
pub record Routed (env : Env) (sm : ShardManager) : Type 0 where
  pub at : (key : Bytes) → (m : Memory) × (shard_by_key env key sm ≡ some m)

module _ (env : Env) where
  lookup-call_on :
      {A : Type 0} (key j : Bytes) (f : Memory → A × Memory) (m n : Memory) (sm : ShardManager)
      → shard_by_key env j sm ≡ some n
      → (k : Memory) × (shard_by_key env j
            (call_on f (get_node env.hash_key key sm.ring) (some m) sm).1
          ≡ some k)
  lookup-call_on key j f m n sm e =
      let id = get_node env.hash_key key sm.ring in
      let id' = get_node env.hash_key j sm.ring in
      elim (Bool-cases (same id id')) [
        | inl one ↦ ((f m).1, rw (lookup-insert id id' (f m).1 sm.shards, one) refl)
        | inr two ↦ (n, rw (lookup-insert id id' (f m).1 sm.shards, two) e)
      ]

  on_shard-Routed :
      {A : Type 0} (key : Bytes) (f : Memory → A × Memory) (sm : ShardManager)
      → Routed env sm
      → Routed env (on_shard env key f sm).1
  unfolding on_shard
  on_shard-Routed key f sm r = record {
    at = λ j. rw ((r.at key).1) (lookup-call_on key j f (r.at key).0 (r.at j).0 sm (r.at j).1);
  }

  -- One entry's method call on its key's shard.
  replays :
      {A : Type 0} (f : Memory → A × Memory) (key j : Bytes) (sm : ShardManager)
      (before after : Option Object)
      → Routed env sm
      → Local key f
      → ((m : Memory) → lookup key (f m).1 ≡ after)
      → stored env sm j ≡ before
      → stored env (on_shard env key f sm).1 j ≡ (if same key j then after else before)
  replays f key j sm before after r local own e = elim (Bool-cases (same key j)) [
    | inl one ↦
        rw (one, ← same→eq key j one)
          ((stored-on_shard env key f sm (r.at key).0 (r.at key).1).1 ∙ own (r.at key).0)
    | inr two ↦ rw two (stored-on_shard_ne env key j f sm local two ∙ e)
  ]

  delete-Local : (key : Bytes) → Local {A = Unit {0}} key (λ m. (tt, (delete key m).1))
  unfolding delete
  delete-Local key m j n = ground (arith, lookup-without key j m)

  delete-own : (key : Bytes) (m : Memory) → lookup key (delete key m).1 ≡ none
  unfolding delete
  delete-own key m = ground (arith, lookup-without key key m, same_refl key)

  restore-insert :
      (later : ℤ) (key : Bytes) (obj : Object) (m : Memory)
      → restore env later key obj m ≡ insert key (reloaded env later obj) m
  unfolding set set_with_ttl
  restore-insert later key obj m = elim (Bool-cases (ltb_ℤ (pos 0) obj.timestamp)) [
    | inl dated ↦ rw dated refl
    | inr undated ↦ rw undated refl
  ]

  module _ (later : ℤ) where
    reload-if :
        (b : Bool) (x y : Option Object)
        → reload env later (if b then x else y)
          ≡ (if b then reload env later x else reload env later y)
    reload-if true x y = refl
    reload-if false x y = refl

    either : {A : Type 0} {x : A} (b : Bool) → (if b then x else x) ≡ x
    either true = refl
    either false = refl

    recover_as-stored :
        (key : Bytes) (b : Bool) (o : Option Object) (j : Bytes) (sm : ShardManager)
        (before : Option Object)
        → Routed env sm
        → stored env sm j ≡ reload env later before
        → stored env (recover_as env later key b o sm).1 j
          ≡ reload env later (
              if same key j
              then (if b then none else elim o [ none ↦ before | some obj ↦ some obj ])
              else before)
    recover_as-stored key true o j sm before r e =
        replays (λ m. (tt {0}, (delete key m).1)) key j sm _ none r (delete-Local key)
          (delete-own key) e
        ∙ sym (reload-if (same key j) none before)
    recover_as-stored key false none j sm before r e =
        rw (reload-if (same key j) before before, either (same key j)) e
    recover_as-stored key false (some obj) j sm before r e =
        replays (λ m. (tt {0}, restore env later key obj m)) key j sm _
          (some (reloaded env later obj)) r
          (λ m k n.
            rw (restore-insert later key obj m, lookup-insert key k (reloaded env later obj) m, n)
              refl)
          (λ m.
            rw
              (
                restore-insert later key obj m,
                lookup-insert key key (reloaded env later obj) m,
                same_refl key,
              )
              refl)
          e
        ∙ sym (reload-if (same key j) (some obj) before)

    -- An entry is never stopped by a missing shard.
    recover_as-Routed :
        (key : Bytes) (b : Bool) (o : Option Object) (sm : ShardManager)
        → Routed env sm
        → Routed env (recover_as env later key b o sm).1
    recover_as-Routed key true o sm r = on_shard-Routed key (λ m. (tt {0}, (delete key m).1)) sm r
    recover_as-Routed key false none sm r = r
    recover_as-Routed key false (some obj) sm r =
        on_shard-Routed key (λ m. (tt {0}, restore env later key obj m)) sm r

    recover_as-ok :
        (key : Bytes) (b : Bool) (o : Option Object) (sm : ShardManager)
        → Routed env sm
        → (recover_as env later key b o sm).0 ≡ ok tt
    recover_as-ok key true o sm r =
        (stored-on_shard env key (λ m. (tt {0}, (delete key m).1)) sm (r.at key).0 (r.at key).1).0
    recover_as-ok key false none sm r = refl
    recover_as-ok key false (some obj) sm r =
        (stored-on_shard env key (λ m. (tt {0}, restore env later key obj m)) sm (r.at key).0
          (r.at key).1).0

    -- The entries that follow, when the first of them went well.
    next :
        (r : Outcome (Unit {0}) × ShardManager) (es : List Entry) (j : Bytes) (o : Option Object)
        → r.0 ≡ ok tt
        → ((recover_memory env later es r.1).0 ≡ ok tt)
          × (stored env (recover_memory env later es r.1).1 j ≡ o)
        → ((on_outcome r (λ u. recover_memory env later es)).0 ≡ ok tt)
          × (stored env (on_outcome r (λ u. recover_memory env later es)).1 j ≡ o)
    next r es j o e h = rw e h

    -- If every key has a shard, `RecoverMemory` goes through the whole log without an error, and a
    -- key that held a reloaded object or nothing before then holds, reloaded, what the log's
    -- entries for the key make of it: the object of the last update, nothing after a deletion.
    pub replayed-recover_memory :
        (es : List Entry) (j : Bytes) (sm : ShardManager) (before : Option Object)
        → Routed env sm
        → stored env sm j ≡ reload env later before
        → ((recover_memory env later es sm).0 ≡ ok tt)
          × (stored env (recover_memory env later es sm).1 j
              ≡ reload env later (logged_after before es j))
    unfolding recover_memory recover_entry logged_after
    replayed-recover_memory [] j sm before r e = (refl, e)
    replayed-recover_memory (d ∷ es) j sm before r e =
        next (recover_entry env later d sm) es j _
          (recover_as-ok d.key (d.op == delete_op) d.object sm r)
          (replayed-recover_memory es j (recover_entry env later d sm).1
            (if same d.key j then effect d before else before)
            (recover_as-Routed d.key (d.op == delete_op) d.object sm r)
            (recover_as-stored d.key (d.op == delete_op) d.object j sm before r e))

-- The object does not expire, or expires after the second `now`.
abbrev pub Lasting : ℤ → Object → Type 0
Lasting now obj = (obj.timestamp ≡ pos 0) ⊎ (now <ℤ obj.timestamp)

pub lasting_stamp :
    (now stamp : ℤ)
    → pos 0 ≤ℤ now
    → IsInt64 stamp
    → (stamp ≡ pos 0) ⊎ (now <ℤ stamp)
    → (if ltb_ℤ (pos 0) stamp then new_stamp now (wrap64 (stamp -ℤ now)) else pos 0) ≡ stamp
lasting_stamp now stamp h i l =
    ground (
      arith,
      wrap64_id (stamp -ℤ now),
      -ℤ_parts stamp now,
      +ℤ-sub_cancel now stamp,
      wrap64_id stamp,
    )

pub past_stamp :
    (now stamp : ℤ)
    → pos 0 ≤ℤ now
    → IsInt64 stamp
    → stamp ≤ℤ now
    → IsInt64 now
    → (if ltb_ℤ (pos 0) stamp then new_stamp now (wrap64 (stamp -ℤ now)) else pos 0) ≡ pos 0
past_stamp now stamp h i l n = ground (arith, wrap64_id (stamp -ℤ now), -ℤ_parts stamp now)
