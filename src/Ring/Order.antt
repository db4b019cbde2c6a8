-- ===== src/Ring/Order.antt =====
-- The order of the hashes on the ring of internal/helper/consistent_hash.go.
use fleare.Prelude.{
  ℕ, ◌≤◌, ◌≡◌, refl, ◌∙◌, ap, true, false, List, [], ◌∷◌, ◌++◌, leb, ◌==◌, if◌then◌else◌, arith,
  All,
}
use fleare.Ring.{place, sort, remove_first}
use fleare.Ring.Search.{IsSorted}

pub All-place {κ} : (P : ℕ → Type κ) (h : ℕ) (xs : List ℕ) → P h → All P xs → All P (place h xs)
unfolding place
All-place P h [] p a = (p, a)
All-place P h (x ∷ xs) p a =
    elim (leb h x) as (λ b. All P (if b then h ∷ x ∷ xs else x ∷ place h xs)) [
      | true ↦ (p, a)
      | false ↦ (a.0, All-place P h xs p a.1)
    ]

All-le : (a b : ℕ) (xs : List ℕ) → a ≤ b → All (λ y. b ≤ y) xs → All (λ y. a ≤ y) xs
All-le a b [] h p = tt
All-le a b (x ∷ xs) h p = (omega arith, All-le a b xs h p.1)

pub place-IsSorted : (h : ℕ) (xs : List ℕ) → IsSorted xs → IsSorted (place h xs)
unfolding place
place-IsSorted h [] s = (tt, tt)
place-IsSorted h (x ∷ xs) s =
    ground (arith, place-IsSorted h xs, All-le h x xs, All-place (λ y. x ≤ y) h xs)

-- Adding to a sorted ring, as `AddNode` does by an append and a sort, puts the hash in its place.
place_swap : (x h : ℕ) (xs : List ℕ) → All (λ y. x ≤ y) xs → place x (place h xs) ≡ place h (x ∷ xs)
unfolding place
place_swap x h [] a = ground arith
place_swap x h (y ∷ ys) a = ground arith

pub sort-append : (h : ℕ) (xs : List ℕ) → IsSorted xs → sort (xs ++ h ∷ []) ≡ place h xs
unfolding sort
sort-append h [] s = refl
sort-append h (x ∷ xs) s = ap (place x) (sort-append h xs s.1) ∙ place_swap x h xs s.0

pub remove_first-place : (h : ℕ) (xs : List ℕ) → remove_first h (place h xs) ≡ xs
unfolding remove_first place
remove_first-place h [] = ground arith
remove_first-place h (x ∷ xs) = ground (arith, remove_first-place h xs)

All-remove_first {κ} : (P : ℕ → Type κ) (h : ℕ) (xs : List ℕ) → All P xs → All P (remove_first h xs)
unfolding remove_first
All-remove_first P h [] a = a
All-remove_first P h (x ∷ xs) a =
    elim (x == h) as (λ b. All P (if b then xs else x ∷ remove_first h xs)) [
      | true ↦ a.1
      | false ↦ (a.0, All-remove_first P h xs a.1)
    ]

pub remove_first-IsSorted : (h : ℕ) (xs : List ℕ) → IsSorted xs → IsSorted (remove_first h xs)
unfolding remove_first
remove_first-IsSorted h [] s = s
remove_first-IsSorted h (x ∷ xs) s =
    ground (arith, remove_first-IsSorted h xs, All-remove_first (λ y. x ≤ y) h xs)
