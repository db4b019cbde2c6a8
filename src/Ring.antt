-- ===== src/Ring.antt =====
-- internal/helper/consistent_hash.go: the hash ring that assigns keys to shards.
-- `hashKey` is a parameter, so that nothing here depends on the checksum that it computes. The
-- map from hashes to node ids is a function.
pub mod Search
pub mod Order
pub mod Assign
pub mod Fill
mod Runs
use fleare.Prelude.{
  ℕ, zero, suc, ◌+◌, ◌-◌, ◌/◌, Bool, Option, none, some, List, [], ◌∷◌, ◌++◌, length, get_or, leb,
  ltb, ◌==◌, if◌then◌else◌,
}
use fleare.Prelude.Bytes.{Bytes}

pub record Ring : Type 0 where
  pub nodes : List ℕ
  pub node_map : ℕ → Option Bytes

abbrev pub new_ring : Ring
new_ring = record { nodes = []; node_map = λ h. none }

abbrev pub update : (ℕ → Option Bytes) → ℕ → Option Bytes → ℕ → Option Bytes
update f h v k = if k == h then v else f k

-- slices.Sort, as an insertion sort.
unfoldable pub place : ℕ → List ℕ → List ℕ
place x [] = x ∷ []
place x (y ∷ ys) = let rest = place x ys in if leb x y then x ∷ y ∷ ys else y ∷ rest

unfoldable pub sort : List ℕ → List ℕ
unfolding place
sort [] = []
sort (x ∷ xs) = place x (sort xs)

-- The loop of `RemoveNode`: the first occurrence is deleted.
unfoldable pub remove_first : ℕ → List ℕ → List ℕ
remove_first h [] = []
remove_first h (x ∷ xs) = let rest = remove_first h xs in if x == h then xs else x ∷ rest

-- The loop of sort.Search for the test `c.nodes[i] >= hash`; each round shortens [i, j).
unfoldable pub search_loop : ℕ → List ℕ → ℕ → ℕ → ℕ → ℕ
search_loop zero nodes hash i j = i
search_loop (suc fuel) nodes hash i j =
    let h = (i + j) / 2 in
    let upper = search_loop fuel nodes hash (h + 1) j in
    let lower = search_loop fuel nodes hash i h in
    if ltb i j then (if leb hash (get_or nodes h 0) then lower else upper) else i

unfoldable pub search : List ℕ → ℕ → ℕ
search nodes hash = search_loop (length nodes) nodes hash 0 (length nodes)

abbrev pub id_or_empty : Option Bytes → Bytes
id_or_empty none = []
id_or_empty (some id) = id

-- `GetNode` behind the hash of its key.
unfoldable pub node_for : (ℕ → Option Bytes) → ℕ → List ℕ → Bytes
node_for node_map hash nodes =
    if length nodes == 0
    then []
    else let idx = search nodes hash in
      let idx' = if idx == length nodes then 0 else idx in
      id_or_empty (node_map (get_or nodes idx' 0))

module _ (hash_key : Bytes → ℕ) where
  unfoldable pub add_node : Bytes → Ring → Ring
  add_node id c = record {
    nodes = sort (c.nodes ++ hash_key id ∷ []);
    node_map = update c.node_map (hash_key id) (some id);
  }

  unfoldable pub remove_node : Bytes → Ring → Ring
  remove_node id c = record {
    nodes = remove_first (hash_key id) c.nodes;
    node_map = update c.node_map (hash_key id) none;
  }

  unfoldable pub get_node : Bytes → Ring → Bytes
  unfolding node_for
  get_node key c = node_for c.node_map (hash_key key) c.nodes

  -- The loop of NewShardManager and of NewWALSystem that fills a ring.
  unfoldable pub add_nodes : List Bytes → Ring → Ring
  add_nodes [] c = c
  add_nodes (id ∷ ids) c = add_nodes ids (add_node id c)
