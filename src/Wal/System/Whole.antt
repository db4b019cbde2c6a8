-- ===== src/Wal/System/Whole.antt =====
-- The files of WALSystem in internal/wal/wal.go, read back in any order.
use fleare.Prelude.{
  ℕ, suc, ◌≡◌, ◌≢◌, refl, sym, ◌∙◌, ap, ◌⊎◌, inl, inr, Bool, true, false, Bool-cases, Option, none,
  some, List, [], ◌∷◌, ◌++◌, All, if◌then◌else◌, arith,
}
use fleare.Prelude.Bytes.{Bytes, same, same_refl, same_iff, same→eq}
use fleare.Prelude.Dict.{lookup}
use fleare.Ring.{Ring, get_node}
use fleare.Ring.Fill.{get_node-add_nodes}
use fleare.Store.{Object}
use fleare.Shard.{ids_from}
use fleare.Shard.Access.{effect, logged_after, logged}
use fleare.Wal.{Entry, Codec, Options, new_wal_shard, run}
use fleare.Wal.Recover.{done, recover_shard, recover}
use fleare.Wal.Recover.RoundTrip.{AllSurvive, recover-close}
use fleare.Wal.System.{
  WalSystem, SystemEvent, new_shards, new_wal_system, system_run, closed_file, files,
}
use fleare.Wal.System.Parts.{
  goes_to, events_of, entries_of, written, sent-events_of, AllRouted, Ran, system_run-Ran,
}

abbrev HasNew : List Bytes → Bytes → Type 0
HasNew ids id = lookup id (new_shards ids) ≡ some (new_wal_shard [])

HasNew-cons :
    (i : Bytes) (ids : List Bytes) (xs : List Bytes)
    → All (HasNew ids) xs
    → All (HasNew (i ∷ ids)) xs
unfolding lookup
HasNew-cons i ids [] a = tt
HasNew-cons i ids (x ∷ xs) a = (ground (arith, a.0), HasNew-cons i ids xs a.1)

All-HasNew : (ids : List Bytes) → All (HasNew ids) ids
unfolding lookup
All-HasNew [] = tt
All-HasNew (i ∷ ids) = (rw (same_refl i) refl, HasNew-cons i ids ids (All-HasNew ids))

pub new_wal_system-AllRouted :
    (hash_key : Bytes → ℕ) (n : ℕ) → AllRouted hash_key (new_wal_system hash_key (suc n))
unfolding new_wal_system ids_from
new_wal_system-AllRouted hash_key n =
    let ids = ids_from (suc n) 0 in
    record {
      at = λ key. (
        new_wal_shard [],
        get_node-add_nodes hash_key (HasNew ids) key _ _ (All-HasNew ids).0 (All-HasNew ids).1,
      );
    }

logged_after-append :
    (o : Option Object) (xs ys : List Entry) (j : Bytes)
    → logged_after o (xs ++ ys) j ≡ logged_after (logged_after o xs j) ys j
unfolding logged_after
logged_after-append o [] ys j = refl
logged_after-append o (x ∷ xs) ys j =
    logged_after-append (if same x.key j then effect x o else o) xs ys j

same_sym : (xs ys : Bytes) → same xs ys ≡ same ys xs
same_sym xs ys = ground (arith, same_iff xs ys, same_iff ys xs)

-- The id occurs in the list once.
abbrev pub Absent : Bytes → List Bytes → Type 0
Absent id ids = All (λ i. same i id ≡ false) ids

abbrev pub Once : Bytes → List Bytes → Type 0
Once id [] = ⊥
Once id (i ∷ ids) = ((same i id ≡ true) × Absent id ids) ⊎ ((same i id ≡ false) × Once id ids)

-- The entries of the shards one after the other.
abbrev pub parts : (Bytes → ℕ) → Ring → List Bytes → List Entry → List Entry
parts hash_key ring [] es = []
parts hash_key ring (id ∷ ids) es = entries_of hash_key ring id es ++ parts hash_key ring ids es

module _ (hash_key : Bytes → ℕ) (ring : Ring) (key : Bytes) where
  -- An entry of the key goes to the key's shard.
  its_shard :
      (id : Bytes) (e : Entry)
      → same e.key key ≡ true
      → goes_to hash_key ring id e ≡ same id (get_node hash_key key ring)
  its_shard id e q =
      ap (λ k. same (get_node hash_key k ring) id) (same→eq e.key key q)
      ∙ same_sym (get_node hash_key key ring) id

  other_key :
      (id : Bytes) (e : Entry) (b c : Bool)
      → goes_to hash_key ring id e ≡ b
      → same id (get_node hash_key key ring) ≡ c
      → b ≢ c
      → same e.key key ≡ false
  other_key id e b c g h n = elim (Bool-cases (same e.key key)) [
    | inl q ↦ absurd (n (sym g ∙ its_shard id e q ∙ h))
    | inr q ↦ q
  ]

  -- The file of another shard says nothing of the key.
  logged-elsewhere :
      (id : Bytes) (o : Option Object) (es : List Entry)
      → same id (get_node hash_key key ring) ≡ false
      → logged_after o (entries_of hash_key ring id es) key ≡ o
  unfolding logged_after
  logged-elsewhere id o [] n = refl
  logged-elsewhere id o (e ∷ es) n = elim (Bool-cases (goes_to hash_key ring id e)) [
    | inl g ↦ rw g (
        ap
          (λ (b : Bool).
            logged_after (if b then effect e o else o) (entries_of hash_key ring id es) key)
          (other_key id e true false g n (λ q. cc))
        ∙ logged-elsewhere id o es n)
    | inr g ↦ rw g (logged-elsewhere id o es n)
  ]

  -- The file of its shard says all of it.
  logged-here :
      (id : Bytes) (o : Option Object) (es : List Entry)
      → same id (get_node hash_key key ring) ≡ true
      → logged_after o (entries_of hash_key ring id es) key ≡ logged_after o es key
  unfolding logged_after
  logged-here id o [] y = refl
  logged-here id o (e ∷ es) y = elim (Bool-cases (goes_to hash_key ring id e)) [
    | inl g ↦ rw g (logged-here id (if same e.key key then effect e o else o) es y)
    | inr g ↦ rw (g, other_key id e false true g y (λ q. cc)) (logged-here id o es y)
  ]

  parts-Absent :
      (ids : List Bytes) (o : Option Object) (es : List Entry)
      → Absent (get_node hash_key key ring) ids
      → logged_after o (parts hash_key ring ids es) key ≡ o
  unfolding logged_after
  parts-Absent [] o es a = refl
  parts-Absent (id ∷ ids) o es a =
      logged_after-append o (entries_of hash_key ring id es) (parts hash_key ring ids es) key
      ∙ rw (logged-elsewhere id o es a.0) (parts-Absent ids o es a.1)

  parts-Once :
      (ids : List Bytes) (o : Option Object) (es : List Entry)
      → Once (get_node hash_key key ring) ids
      → logged_after o (parts hash_key ring ids es) key ≡ logged_after o es key
  parts-Once [] o es h = absurd h
  parts-Once (id ∷ ids) o es (inl (y, a)) =
      logged_after-append o (entries_of hash_key ring id es) (parts hash_key ring ids es) key
      ∙ rw (logged-here id o es y) (parts-Absent ids (logged_after o es key) es a)
  parts-Once (id ∷ ids) o es (inr (n, h)) =
      logged_after-append o (entries_of hash_key ring id es) (parts hash_key ring ids es) key
      ∙ rw (logged-elsewhere id o es n) (parts-Once ids o es h)

module _ (hash_key : Bytes → ℕ) (c : Codec) (o : Options) where
  AllSurvive-entries_of :
      (ring : Ring) (id : Bytes) (es : List Entry)
      → AllSurvive c es
      → AllSurvive c (entries_of hash_key ring id es)
  AllSurvive-entries_of ring id [] a = tt
  AllSurvive-entries_of ring id (e ∷ es) (s, a) = elim (Bool-cases (goes_to hash_key ring id e)) [
    | inl g ↦ rw g (s, AllSurvive-entries_of ring id es a)
    | inr g ↦ rw g (AllSurvive-entries_of ring id es a)
  ]

  -- The file of one shard.
  file-recovered :
      (ring : Ring) (id : Bytes) (evs : List SystemEvent)
      → AllSurvive c (written evs)
      → recover_shard c (
          closed_file hash_key c o
            (some (run c o (new_wal_shard []) (events_of hash_key ring id evs))))
        ≡ (entries_of hash_key ring id (written evs), done)
  file-recovered ring id evs a =
      recover-close c o (events_of hash_key ring id evs)
        (rw (sent-events_of hash_key ring id evs) (AllSurvive-entries_of ring id (written evs) a))
      ∙ ap (λ (es : List Entry). (es, done)) (sent-events_of hash_key ring id evs)

  files-recovered :
      (ws : WalSystem) (evs : List SystemEvent) (r : Option WalSystem)
      → (n : Ran hash_key c o ws evs r) → AllSurvive c (written evs)
      → (order : List Bytes) → All (λ id. lookup id ws.shards ≡ some (new_wal_shard [])) order
      → recover c (files hash_key c o order n.after)
        ≡ (parts hash_key ws.chash order (written evs), done)
  unfolding recover
  files-recovered ws evs r n a [] k = refl
  files-recovered ws evs r n a (id ∷ order) k =
      rw
        (
          n.shard_of id (new_wal_shard []) k.0,
          file-recovered ws.chash id evs a,
          files-recovered ws evs r n a order k.1,
        )
        refl

  -- If all the entries that Put and Delete send survive their encoding, then a WALSystem of one
  -- shard at least, however its goroutines' rounds fall, never misses a shard, and after Close the
  -- files, read back in any order of shards in which the key's shard occurs once, give entries,
  -- without an error, that say of the key the same as all the entries in the order in which they
  -- were sent.
  pub logged-recover :
      (n : ℕ) (evs : List SystemEvent) (order : List Bytes) (key : Bytes)
      → AllSurvive c (written evs)
      → All
          (λ id. lookup id (new_wal_system hash_key (suc n)).shards ≡ some (new_wal_shard []))
          order
      → Once (get_node hash_key key (new_wal_system hash_key (suc n)).chash) order
      → (ws : WalSystem) × (system_run hash_key c o evs (new_wal_system hash_key (suc n)) ≡ some ws)
        × (es : List Entry) × (recover c (files hash_key c o order ws) ≡ (es, done))
        × (logged es key ≡ logged (written evs) key)
  logged-recover n evs order key a k once =
      let ws = new_wal_system hash_key (suc n) in
      let r = system_run-Ran hash_key c o evs ws (new_wal_system-AllRouted hash_key n) in
      (
        r.after,
        r.result,
        parts hash_key ws.chash order (written evs),
        files-recovered ws evs _ r a order k,
        parts-Once hash_key ws.chash key order none (written evs) once,
      )
