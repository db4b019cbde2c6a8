-- ===== src/Ring/Runs.antt =====
-- The theorems on internal/helper/consistent_hash.go at a small ring.
use fleare.Prelude.{ℕ, ◌≡◌, ◌⊎◌, none, some, [], ◌∷◌, arith}
use fleare.Prelude.Bytes.{Bytes}
use fleare.Ring.{Ring, update, add_node, remove_node, get_node}
use fleare.Ring.Search.{IsSorted}
use fleare.Ring.Assign.{
  clockwise, node_at, get_node-clockwise, get_node-add_node, get_node-remove_add,
}

-- A key's first byte.
abbrev first_byte : Bytes → ℕ
first_byte [] = 0
first_byte (c ∷ cs) = c

abbrev two_nodes : Ring
two_nodes = record {
  nodes = 50 ∷ 90 ∷ [];
  node_map = update (update (λ h. none) 50 (some (50 ∷ []))) 90 (some (90 ∷ []));
}

two_nodes-IsSorted : IsSorted two_nodes.nodes
two_nodes-IsSorted = ((omega arith, tt), (tt, tt))

get_node-clockwise_example :
    get_node first_byte (60 ∷ []) two_nodes
    ≡ node_at two_nodes.node_map (clockwise 60 (50 ∷ 90 ∷ []))
get_node-clockwise_example = get_node-clockwise first_byte (60 ∷ []) two_nodes two_nodes-IsSorted

get_node-add_node_example :
    (get_node first_byte (60 ∷ []) (add_node first_byte (70 ∷ []) two_nodes) ≡ 70 ∷ [])
    ⊎ (get_node first_byte (60 ∷ []) (add_node first_byte (70 ∷ []) two_nodes)
        ≡ get_node first_byte (60 ∷ []) two_nodes)
get_node-add_node_example =
    get_node-add_node first_byte (60 ∷ []) (70 ∷ []) two_nodes two_nodes-IsSorted

get_node-remove_add_example :
    get_node first_byte
      (60 ∷ [])
      (remove_node first_byte (70 ∷ []) (add_node first_byte (70 ∷ []) two_nodes))
    ≡ get_node first_byte (60 ∷ []) two_nodes
get_node-remove_add_example =
    get_node-remove_add first_byte (60 ∷ []) (70 ∷ []) two_nodes two_nodes-IsSorted
      (ground arith, (ground arith, tt))
