-- ===== src/Command/Durable.antt =====
-- Whether the commands of commander/ keep the log of internal/wal/wal.go and the memories in
-- agreement: the calls that the handlers share.
pub mod Expiry
pub mod Texts
pub mod Lists
pub mod Maps
pub mod Documents
use fleare.Prelude.{
  ℕ, zero, suc, ◌+◌, ◌≡◌, refl, sym, ap, ◌∙◌, ◌⊎◌, inl, inr, Bool, true, false, Option, none, some,
  List, [], ◌∷◌, ◌++◌, if◌then◌else◌, ◌==◌, Option-cases, Bool-cases, arith,
}
use fleare.Prelude.Int.{ℤ, pos, ◌≤ℤ◌, ltb_ℤ}
use fleare.Prelude.Bytes.{Bytes, same, same_iff, same_refl, same→eq}
use fleare.Prelude.Dict.{lookup, insert, without, lookup-insert, lookup-without}
use fleare.Store
use fleare.Store.{Object, Memory, due, past, get, set, delete, ttl, expire}
use fleare.Wal.{Entry, delete_op, update_op}
use fleare.Exec.{Outcome, ok, crash, Exec, pure, fail, on_outcome, ◌>>=◌, ◌>>◌}
use fleare.Exec.Keeps.{
  Keeps, Keeps-pure, Keeps-fail, Keeps-panic, Keeps-require, Keeps-bind, Keeps-then,
}
use fleare.Shard.{
  Env, ShardManager, shard_by_key, on_shard, mem_get, mem_set, mem_delete, wal_put, wal_delete,
  send_entry,
}
use fleare.Shard.Access.{stored, logged, Local}
use fleare.Shard.Durable.{Gone, Agrees, Durable, Accepting, on_shard-Durable, commit-Durable}
use fleare.Command.{save, remove, plain}

get-Local : (now : ℤ) (key : Bytes) → Local key (get now key)
unfolding get
get-Local now key m j n = ground (arith, lookup-without key j m)

get-own :
    (now : ℤ) (key : Bytes) (m : Memory) (said : Option Object)
    → Agrees now (lookup key m) said
    → Agrees now (lookup key (get now key m).1) said
unfolding get
get-own now key m said a = ground (arith, lookup-without key key m, same_refl key)

ttl-Local : (now : ℤ) (key : Bytes) → Local key (ttl now key)
unfolding ttl
ttl-Local now key m j n = ground (arith, lookup-without key j m)

ttl-own :
    (now : ℤ) (key : Bytes) (m : Memory) (said : Option Object)
    → Agrees now (lookup key m) said
    → Agrees now (lookup key (ttl now key m).1) said
unfolding ttl
ttl-own now key m said a = ground (arith, lookup-without key key m, same_refl key)

pub set-Local :
    (key value : Bytes) (kind : ℕ) → Local {A = Unit {0}} key (λ m. (tt, set key value kind m))
unfolding set
set-Local key value kind m j n = ground (arith, lookup-insert key j (plain value kind) m)

pub delete-Local : (key : Bytes) → Local key (delete key)
unfolding delete
delete-Local key m j n = ground (arith, lookup-without key j m)

pub set-own :
    (key value : Bytes) (kind : ℕ) (m : Memory)
    → some (plain value kind) ≡ lookup key (set key value kind m)
unfolding set
set-own key value kind m = rw (lookup-insert key key (plain value kind) m, same_refl key)

pub delete-own : (key : Bytes) (m : Memory) → none ≡ lookup key (delete key m).1
unfolding delete
delete-own key m = ground (arith, lookup-without key key m, same_refl key)

module _ (env : Env) where
  pub mem_get-Durable : (key : Bytes) → Keeps (Durable env) (mem_get env key)
  mem_get-Durable key =
      on_shard-Durable env key (get env.now key) (get-Local env.now key) (get-own env.now key)

  pub save-Durable :
      (key value : Bytes) (kind : ℕ) → Accepting env → Keeps (Durable env) (save env key value kind)
  unfolding save
  save-Durable key value kind acc =
      commit-Durable env _ (record { op = update_op; key = key; object = some (plain value kind) })
        acc (set-Local key value kind) (λ m said. set-own key value kind m)

  pub remove-Durable : (key : Bytes) → Accepting env → Keeps (Durable env) (remove env key)
  unfolding remove
  remove-Durable key acc =
      commit-Durable env (delete key) (record { op = delete_op; key = key; object = none }) acc
        (delete-Local key) (λ m said. delete-own key m)

  pub mem_ttl-Durable : (key : Bytes) → Keeps (Durable env) (on_shard env key (ttl env.now key))
  mem_ttl-Durable key =
      on_shard-Durable env key (ttl env.now key) (ttl-Local env.now key) (ttl-own env.now key)
