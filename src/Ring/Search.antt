-- ===== src/Ring/Search.antt =====
-- The binary search of `GetNode` in internal/helper/consistent_hash.go.
use fleare.Prelude.{
  ℕ, zero, suc, ◌+◌, ◌/◌, ◌≤◌, ◌<◌, ◌≡◌, List, [], ◌∷◌, length, get_or, leb, if◌then◌else◌, arith,
  All,
}
use fleare.Ring.{search_loop, search}

-- Nondecreasing order.
abbrev pub IsSorted : List ℕ → Type 0
IsSorted [] = Unit
IsSorted (x ∷ xs) = All (λ y. x ≤ y) xs × IsSorted xs

-- How many hashes stand in front of the first one that is not below `hash`.
unfoldable pub below : ℕ → List ℕ → ℕ
below hash [] = 0
below hash (x ∷ xs) = if leb hash x then 0 else suc (below hash xs)

pub below-le-length : (hash : ℕ) (xs : List ℕ) → below hash xs ≤ length xs
unfolding below
below-le-length hash [] = omega arith
below-le-length hash (x ∷ xs) = ground (arith, below-le-length hash xs)

All-get_or : (lo i : ℕ) (xs : List ℕ) → All (λ y. lo ≤ y) xs → i < length xs → lo ≤ get_or xs i 0
All-get_or lo i [] h k = absurd (omega arith)
All-get_or lo zero (x ∷ xs) h k = h.0
All-get_or lo (suc i) (x ∷ xs) h k = All-get_or lo i xs h.1 (omega arith)

-- In a sorted ring the search's test holds from `below` on and not before.
test_threshold :
    (hash i : ℕ) (xs : List ℕ)
    → IsSorted xs
    → i < length xs
    → leb hash (get_or xs i 0) ≡ leb (below hash xs) i
unfolding below
test_threshold hash i [] s h = absurd (omega arith)
test_threshold hash zero (x ∷ xs) s h = ground arith
test_threshold hash (suc i) (x ∷ xs) s h =
    ground (arith, test_threshold hash i xs s.1, All-get_or x i xs s.0)

loop-eq-below :
    (fuel hash i j : ℕ) (xs : List ℕ)
    → IsSorted xs
    → i ≤ below hash xs
    → below hash xs ≤ j
    → j ≤ length xs
    → j ≤ fuel + i
    → search_loop fuel xs hash i j ≡ below hash xs
unfolding search_loop
loop-eq-below zero hash i j xs s lo hi l f = omega arith
loop-eq-below (suc fuel) hash i j xs s lo hi l f = ground (
  arith,
  test_threshold hash ((i + j) / 2) xs s,
  loop-eq-below fuel hash i ((i + j) / 2) xs s,
  loop-eq-below fuel hash ((i + j) / 2 + 1) j xs s,
)

-- On a sorted ring the search returns the number of hashes below the one that is looked for: the
-- index of the first hash that is not below it, and the length if there is none.
pub search-eq-below : (hash : ℕ) (xs : List ℕ) → IsSorted xs → search xs hash ≡ below hash xs
unfolding search
search-eq-below hash xs s =
    loop-eq-below (length xs) hash 0 (length xs) xs s (omega arith) (below-le-length hash xs)
      (omega arith) (omega arith)
