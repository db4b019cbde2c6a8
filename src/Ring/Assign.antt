-- ===== src/Ring/Assign.antt =====
-- Which node `GetNode` of internal/helper/consistent_hash.go gives to a key, before and after
-- `AddNode` and `RemoveNode`.
use fleare.Prelude.{
  ℕ, ◌≡◌, refl, sym, ◌∙◌, ◌≢◌, ◌⊎◌, inl, inr, true, false, Option, none, some, List, [], ◌∷◌,
  length, get_or, leb, ◌==◌, if◌then◌else◌, arith, All,
}
use fleare.Prelude.Bytes.{Bytes}
use fleare.Ring.{Ring, id_or_empty, update, place, add_node, remove_node, get_node, node_for}
use fleare.Ring.Search.{IsSorted, below, search-eq-below, below-le-length}
use fleare.Ring.Order.{place-IsSorted, sort-append, remove_first-place}

-- The first hash that is not below `hash`, and `d` if there is none.
unfoldable pub successor : ℕ → ℕ → List ℕ → ℕ
successor d hash [] = d
successor d hash (x ∷ xs) = if leb hash x then x else successor d hash xs

successor-get_or :
    (d hash : ℕ) (xs : List ℕ)
    → successor d hash xs ≡ (if below hash xs == length xs then d else get_or xs (below hash xs) 0)
unfolding successor below
successor-get_or d hash [] = refl
successor-get_or d hash (x ∷ xs) =
    ground (arith, successor-get_or d hash xs, below-le-length hash xs)

-- The node on the ring clockwise from `hash`: the first hash that is not below it, or else, past
-- the end, the ring's smallest hash.
abbrev pub clockwise : ℕ → List ℕ → Option ℕ
clockwise hash [] = none
clockwise hash (x ∷ xs) = some (successor x hash (x ∷ xs))

abbrev pub node_at : (ℕ → Option Bytes) → Option ℕ → Bytes
node_at f none = []
node_at f (some h) = id_or_empty (f h)

successor_default :
    (d d' hash h : ℕ) (xs : List ℕ)
    → (d' ≡ h) ⊎ (d' ≡ d)
    → (successor d' hash xs ≡ h) ⊎ (successor d' hash xs ≡ successor d hash xs)
unfolding successor
successor_default d d' hash h [] e = e
successor_default d d' hash h (x ∷ xs) e = ground (arith, successor_default d d' hash h xs)

-- Adding a hash to the ring moves a position to the new hash or leaves it where it was.
successor-place :
    (d d' hash h : ℕ) (xs : List ℕ)
    → (d' ≡ h) ⊎ (d' ≡ d)
    → (successor d' hash (place h xs) ≡ h) ⊎ (successor d' hash (place h xs) ≡ successor d hash xs)
unfolding successor place
successor-place d d' hash h [] e = ground arith
successor-place d d' hash h (x ∷ xs) e =
    ground (arith, successor-place d d' hash h xs, successor_default d d' hash h xs)

node_for-clockwise :
    (f : ℕ → Option Bytes) (hash : ℕ) (xs : List ℕ)
    → IsSorted xs
    → node_for f hash xs ≡ node_at f (clockwise hash xs)
unfolding node_for
node_for-clockwise f hash [] s = refl
node_for-clockwise f hash (x ∷ xs) s =
    rw (search-eq-below hash (x ∷ xs) s) (rw (successor-get_or x hash (x ∷ xs)) (ground arith))

clockwise-place :
    (hash h : ℕ) (xs : List ℕ)
    → (clockwise hash (place h xs) ≡ some h) ⊎ (clockwise hash (place h xs) ≡ clockwise hash xs)
unfolding place successor
clockwise-place hash h [] = ground arith
clockwise-place hash h (x ∷ xs) = ground (
  arith,
  successor-place x h hash h (x ∷ xs) (inl refl),
  successor-place x x hash h (x ∷ xs) (inr refl),
)

node_at-update :
    (f : ℕ → Option Bytes) (h : ℕ) (id : Bytes) (o : Option ℕ)
    → (node_at (update f h (some id)) o ≡ id) ⊎ (node_at (update f h (some id)) o ≡ node_at f o)
node_at-update f h id none = inr refl
node_at-update f h id (some x) = ground arith

node_at-add :
    (f : ℕ → Option Bytes) (hash h : ℕ) (id : Bytes) (xs : List ℕ)
    → (node_at (update f h (some id)) (clockwise hash (place h xs)) ≡ id)
      ⊎ (node_at (update f h (some id)) (clockwise hash (place h xs))
          ≡ node_at f (clockwise hash xs))
node_at-add f hash h id xs = elim (clockwise-place hash h xs) [
  | inl moved ↦ rw moved (inl (ground arith))
  | inr stayed ↦ rw stayed (node_at-update f h id (clockwise hash xs))
]

pub All-successor {κ} :
    (Q : ℕ → Type κ) (d hash : ℕ) (xs : List ℕ) → Q d → All Q xs → Q (successor d hash xs)
unfolding successor
All-successor Q d hash [] q a = q
All-successor Q d hash (x ∷ xs) q a =
    elim (leb hash x) as (λ b. Q (if b then x else successor d hash xs)) [
      | true ↦ a.0
      | false ↦ All-successor Q d hash xs q a.1
    ]

node_at-readd :
    (f : ℕ → Option Bytes) (hash h : ℕ) (id : Bytes) (xs : List ℕ)
    → All (λ x. x ≢ h) xs
    → node_at (update (update f h (some id)) h none) (clockwise hash xs)
      ≡ node_at f (clockwise hash xs)
node_at-readd f hash h id [] a = refl
node_at-readd f hash h id (x ∷ xs) a =
    let other = All-successor (λ y. y ≢ h) x hash (x ∷ xs) a.0 a in ground arith

module _ (hash_key : Bytes → ℕ) where
  -- On a sorted ring `GetNode` gives a key to the node clockwise from the key's hash, and
  -- the empty name if the ring is empty.
  pub get_node-clockwise :
      (key : Bytes) (c : Ring)
      → IsSorted c.nodes
      → get_node hash_key key c ≡ node_at c.node_map (clockwise (hash_key key) c.nodes)
  unfolding get_node
  get_node-clockwise key c s = node_for-clockwise c.node_map (hash_key key) c.nodes s

  -- `AddNode` keeps the ring sorted.
  pub add_node-IsSorted :
      (id : Bytes) (c : Ring) → IsSorted c.nodes → IsSorted (add_node hash_key id c).nodes
  unfolding add_node
  add_node-IsSorted id c s =
      rw (sort-append (hash_key id) c.nodes s) (place-IsSorted (hash_key id) c.nodes s)

  -- Consistent hashing: after `AddNode` a key belongs to the new node, or to the node to which it
  -- belonged before.
  pub get_node-add_node :
      (key id : Bytes) (c : Ring)
      → IsSorted c.nodes
      → (get_node hash_key key (add_node hash_key id c) ≡ id)
        ⊎ (get_node hash_key key (add_node hash_key id c) ≡ get_node hash_key key c)
  get_node-add_node key id c s =
      rw
        (
          get_node-clockwise key c s,
          get_node-clockwise key (add_node hash_key id c) (add_node-IsSorted id c s),
        )
        (unfold add_node in
          rw (sort-append (hash_key id) c.nodes s)
            (node_at-add c.node_map (hash_key key) (hash_key id) id c.nodes))

  -- `RemoveNode` undoes `AddNode`: if no node of a sorted ring has the hash of the new id, every
  -- key belongs to the same node after the id was added and removed as before.
  pub get_node-remove_add :
      (key id : Bytes) (c : Ring)
      → IsSorted c.nodes
      → All (λ x. x ≢ hash_key id) c.nodes
      → get_node hash_key key (remove_node hash_key id (add_node hash_key id c))
        ≡ get_node hash_key key c
  unfolding get_node add_node remove_node
  get_node-remove_add key id c s a =
      rw (sort-append (hash_key id) c.nodes s, remove_first-place (hash_key id) c.nodes)
        (node_for-clockwise (update (update c.node_map (hash_key id) (some id)) (hash_key id) none)
            (hash_key key) c.nodes s
          ∙ node_at-readd c.node_map (hash_key key) (hash_key id) id c.nodes a
          ∙ sym (node_for-clockwise c.node_map (hash_key key) c.nodes s))
