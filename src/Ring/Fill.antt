-- ===== src/Ring/Fill.antt =====
-- The loops of NewShardManager (internal/shard/shard_manager.go) and NewWALSystem
-- (internal/wal/wal.go) that fill a ring.
use fleare.Prelude.{
  ℕ, ◌≡◌, refl, ◌≢◌, inl, inr, Bool-cases, Option, some, List, [], ◌∷◌, ◌==◌, arith, All,
}
use fleare.Prelude.Bytes.{Bytes}
use fleare.Ring.{Ring, new_ring, update, place, add_node, get_node, add_nodes}
use fleare.Ring.Search.{IsSorted}
use fleare.Ring.Order.{sort-append, All-place}
use fleare.Ring.Assign.{clockwise, node_at, All-successor, add_node-IsSorted, get_node-clockwise}

-- The predicate that `AddNode` keeps: each hash on the ring leads to an id that satisfies `P`.
abbrev pub Leads : (Bytes → Type 0) → (ℕ → Option Bytes) → List ℕ → Type 0
Leads P f xs = All (λ h. (id : Bytes) × (f h ≡ some id) × P id) xs

Leads-update :
    (P : Bytes → Type 0) (f : ℕ → Option Bytes) (h : ℕ) (id : Bytes) (xs : List ℕ)
    → P id
    → Leads P f xs
    → Leads P (update f h (some id)) xs
Leads-update P f h id [] p l = tt
Leads-update P f h id (x ∷ xs) p l = (
  elim (Bool-cases (x == h)) [ inl e ↦ (id, rw e, p) | inr e ↦ (l.0.0, rw e l.0.1, l.0.2) ],
  Leads-update P f h id xs p l.1,
)

Leads-node_at :
    (P : Bytes → Type 0) (f : ℕ → Option Bytes) (hash : ℕ) (xs : List ℕ)
    → Leads P f xs
    → xs ≢ []
    → P (node_at f (clockwise hash xs))
Leads-node_at P f hash [] l n = absurd (n refl)
Leads-node_at P f hash (x ∷ xs) l n =
    let led = All-successor (λ h. (id : Bytes) × (f h ≡ some id) × P id) x hash (x ∷ xs) l.0 l in
    rw (led.1) led.2

place-ne-nil : (h : ℕ) (xs : List ℕ) → place h xs ≢ []
unfolding place
place-ne-nil h [] e = cc
place-ne-nil h (x ∷ xs) e = ground arith

module _ (hash_key : Bytes → ℕ) where
  pub add_nodes-IsSorted :
      (ids : List Bytes) (c : Ring) → IsSorted c.nodes → IsSorted (add_nodes hash_key ids c).nodes
  unfolding add_nodes
  add_nodes-IsSorted [] c s = s
  add_nodes-IsSorted (id ∷ ids) c s =
      add_nodes-IsSorted ids (add_node hash_key id c) (add_node-IsSorted hash_key id c s)

  add_node-Leads :
      (P : Bytes → Type 0) (id : Bytes) (c : Ring)
      → IsSorted c.nodes
      → P id
      → Leads P c.node_map c.nodes
      → Leads P (add_node hash_key id c).node_map (add_node hash_key id c).nodes
        × ((add_node hash_key id c).nodes ≢ [])
  unfolding add_node place
  add_node-Leads P id c s p l = rw (sort-append (hash_key id) c.nodes s) (
    All-place _ (hash_key id) c.nodes (id, ground arith, p)
        (Leads-update P c.node_map (hash_key id) id c.nodes p l),
    place-ne-nil (hash_key id) c.nodes,
  )

  add_nodes-Leads :
      (P : Bytes → Type 0) (ids : List Bytes) (c : Ring)
      → IsSorted c.nodes
      → All P ids
      → Leads P c.node_map c.nodes
      → c.nodes ≢ []
      → Leads P (add_nodes hash_key ids c).node_map (add_nodes hash_key ids c).nodes
        × ((add_nodes hash_key ids c).nodes ≢ [])
  unfolding add_nodes
  add_nodes-Leads P [] c s a l n = (l, n)
  add_nodes-Leads P (id ∷ ids) c s a l n =
      let (l', n') = add_node-Leads P id c s a.0 l in
      add_nodes-Leads P ids (add_node hash_key id c) (add_node-IsSorted hash_key id c s) a.1 l' n'

  -- A ring that is filled with one id at least gives every key to one of the ids: whatever holds
  -- of all the ids holds of the node of every key.
  pub get_node-add_nodes :
      (P : Bytes → Type 0) (key id : Bytes) (ids : List Bytes)
      → P id
      → All P ids
      → P (get_node hash_key key (add_nodes hash_key (id ∷ ids) new_ring))
  unfolding add_nodes
  get_node-add_nodes P key id ids p a =
      let c = add_node hash_key id new_ring in
      let s = add_node-IsSorted hash_key id new_ring tt in
      let (l, n) = add_node-Leads P id new_ring tt p tt in
      let (l', n') = add_nodes-Leads P ids c s a l n in
      rw (get_node-clockwise hash_key key (add_nodes hash_key ids c) (add_nodes-IsSorted ids c s)) (
        Leads-node_at P (add_nodes hash_key ids c).node_map (hash_key key)
          (add_nodes hash_key ids c).nodes l' n')
