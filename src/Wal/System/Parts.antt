-- ===== src/Wal/System/Parts.antt =====
-- What each shard of WALSystem in internal/wal/wal.go gets to write.
use fleare.Prelude.{
  ℕ, ◌≡◌, refl, sym, ◌∙◌, ap, inl, inr, Bool, Bool-cases, Option, none, some, Option-cases, List,
  [], ◌∷◌, if◌then◌else◌,
}
use mathlib.Core.Option.{some-injective, none-ne-some}
use fleare.Prelude.Bytes.{Bytes, same, same→eq}
use fleare.Prelude.Dict.{lookup, insert, lookup-insert_here, lookup-insert_other}
use fleare.Ring.{Ring, get_node}
use fleare.Wal.{Entry, Codec, Options, WalShard, Event, send, turn, step, run}
use fleare.Wal.Run.{sent}
use fleare.Wal.System.{WalSystem, SystemEvent, write, round_of, put_shard, system_step, system_run}

-- The entries of the handlers, in order.
abbrev pub written : List SystemEvent → List Entry
written [] = []
written (write e ∷ evs) = e ∷ written evs
written (round_of i late ∷ evs) = written evs

module _ (hash_key : Bytes → ℕ) (ring : Ring) where
  -- The shard of an entry.
  abbrev pub goes_to : Bytes → Entry → Bool
  goes_to id e = same (get_node hash_key e.key ring) id

  -- The events of one shard.
  abbrev pub events_of : Bytes → List SystemEvent → List Event
  events_of id [] = []
  events_of id (write e ∷ evs) =
      if goes_to id e then send e ∷ events_of id evs else events_of id evs
  events_of id (round_of i late ∷ evs) =
      if same i id then turn late ∷ events_of id evs else events_of id evs

  abbrev pub entries_of : Bytes → List Entry → List Entry
  entries_of id [] = []
  entries_of id (e ∷ es) = if goes_to id e then e ∷ entries_of id es else entries_of id es

  pub sent-events_of :
      (id : Bytes) (evs : List SystemEvent) → sent (events_of id evs) ≡ entries_of id (written evs)
  sent-events_of id [] = refl
  sent-events_of id (write e ∷ evs) = elim (Bool-cases (goes_to id e)) [
    | inl s ↦ rw s (ap (λ t. e ∷ t) (sent-events_of id evs))
    | inr s ↦ rw s (sent-events_of id evs)
  ]
  sent-events_of id (round_of i late ∷ evs) = elim (Bool-cases (same i id)) [
    | inl s ↦ rw s (sent-events_of id evs)
    | inr s ↦ rw s (sent-events_of id evs)
  ]

-- Every key has a shard.
pub record AllRouted (hash_key : Bytes → ℕ) (ws : WalSystem) : Type 0 where
  pub at :
      (key : Bytes) → (s : WalShard) × (lookup (get_node hash_key key ws.chash) ws.shards ≡ some s)

module _ (hash_key : Bytes → ℕ) (codec : Codec) (o : Options) where
  -- A shard has run its events.
  pub record Ran (ws : WalSystem) (evs : List SystemEvent) (r : Option WalSystem) : Type 0 where
    pub after : WalSystem
    pub result : r ≡ some after
    pub shard_of :
        (id : Bytes) (s : WalShard)
        → lookup id ws.shards ≡ some s
        → lookup id after.shards ≡ some (run codec o s (events_of hash_key ws.chash id evs))

  put_shard-AllRouted :
      (id : Bytes) (ws : WalSystem) (s : WalShard)
      → AllRouted hash_key ws
      → AllRouted hash_key (put_shard hash_key codec o id ws s)
  put_shard-AllRouted id ws s r = record { at = λ key. found key (r.at key) }
    where
      found :
          (key : Bytes)
          → (t : WalShard) × (lookup (get_node hash_key key ws.chash) ws.shards ≡ some t)
          → (t : WalShard) × (lookup (get_node hash_key key ws.chash) (insert id s ws.shards)
              ≡ some t)
      found key (t, e) = elim (Bool-cases (same id (get_node hash_key key ws.chash))) [
        | inl q ↦ (
          s,
          rw (← same→eq id (get_node hash_key key ws.chash) q) (lookup-insert_here id s ws.shards),
        )
        | inr q ↦ (t, lookup-insert_other id (get_node hash_key key ws.chash) s ws.shards q ∙ e)
      ]

  -- A round of a shard that is not there.
  idle :
      (i : Bytes) (late : Bool) (evs : List SystemEvent) (ws after : WalSystem) (id : Bytes)
      (s : WalShard)
      → lookup i ws.shards ≡ none
      → lookup id ws.shards ≡ some s
      → lookup id after.shards ≡ some (run codec o s (events_of hash_key ws.chash id evs))
      → lookup id after.shards
        ≡ some (run codec o s (events_of hash_key ws.chash id (round_of i late ∷ evs)))
  idle i late evs ws after id s f g e = elim (Bool-cases (same i id)) [
    | inl q ↦ absurd (none-ne-some s (sym f ∙ rw (same→eq i id q) g))
    | inr q ↦ rw q e
  ]

  -- A shard's step, and then the rest.
  stepped :
      (node : Bytes) (t : WalShard) (ev : Event) (evs : List SystemEvent) (ws : WalSystem)
      (r : Option WalSystem) (id : Bytes) (s : WalShard)
      → lookup node ws.shards ≡ some t
      → (n : Ran (put_shard hash_key codec o node ws (step codec o t ev)) evs r)
      → lookup id ws.shards ≡ some s
      → lookup id n.after.shards
        ≡ some (
            run codec o s (
              if same node id
              then ev ∷ events_of hash_key ws.chash id evs
              else events_of hash_key ws.chash id evs))
  unfolding run
  stepped node t ev evs ws r id s e n f = elim (Bool-cases (same node id)) [
    | inl q ↦
        rw (q, ← some-injective t s (sym e ∙ rw (same→eq node id q) f), ← same→eq node id q)
          (n.shard_of node (step codec o t ev)
            (lookup-insert_here node (step codec o t ev) ws.shards))
    | inr q ↦
        rw q (n.shard_of id s (lookup-insert_other node id (step codec o t ev) ws.shards q ∙ f))
  ]

  pub system_run-Ran :
      (evs : List SystemEvent) (ws : WalSystem)
      → AllRouted hash_key ws
      → Ran ws evs (system_run hash_key codec o evs ws)
  unfolding system_run system_step run
  system_run-Ran [] ws r = record { after = ws; result = refl; shard_of = λ id s e. e }
  system_run-Ran (write e ∷ evs) ws r =
      let node = get_node hash_key e.key ws.chash in
      let (t, f) = r.at e.key in
      let n =
        system_run-Ran evs (put_shard hash_key codec o node ws (step codec o t (send e)))
          (put_shard-AllRouted node ws (step codec o t (send e)) r) in
      rw f (record {
        after = n.after;
        result = n.result;
        shard_of = λ id s g. stepped node t (send e) evs ws _ id s f n g;
      })
  system_run-Ran (round_of i late ∷ evs) ws r = elim (Option-cases (lookup i ws.shards)) [
    | inl f ↦
        let n = system_run-Ran evs ws r in
        rw f (record {
          after = n.after;
          result = n.result;
          shard_of = λ id s g. idle i late evs ws n.after id s f g (n.shard_of id s g);
        })
    | inr (t, f) ↦
        let n =
          system_run-Ran evs (put_shard hash_key codec o i ws (step codec o t (turn late)))
            (put_shard-AllRouted i ws (step codec o t (turn late)) r) in
        rw f (record {
          after = n.after;
          result = n.result;
          shard_of = λ id s g. stepped i t (turn late) evs ws _ id s f n g;
        })
  ]
