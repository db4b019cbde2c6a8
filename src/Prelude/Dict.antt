-- ===== src/Prelude/Dict.antt =====
-- Go's `map[string]V` as an association list without repeated keys. Clients use `dict_laws`.
use fleare.Prelude.Tests.{if◌then◌else◌, if_true, if_false, Bool-cases}
use fleare.Prelude.Lists.{length}
use Prim.Native.Nat.{◌≤◌, ◌<◌}
use mathlib.Core.Logic.{◌⊎◌, inl, inr}
use mathlib.Core.Bool.{true, false}
use fleare.Prelude.Bytes.{Bytes, same, same_iff, same_refl}
use mathlib.Core.Path.{◌≡◌, refl, sym, ◌∙◌}
use mathlib.Core.Option.{Option, none, some, some-injective, none-ne-some}
use mathlib.Core.List.{List, [], ◌∷◌}
use native.Mathlib.Omega.{arith}

module _ {ℓ} {V : Type ℓ} where
  -- m[k]
  unfoldable pub lookup : Bytes → List (Bytes × V) → Option V
  lookup k [] = none
  lookup k ((j, v) ∷ l) = if same j k then some v else lookup k l

  -- delete(m, k)
  unfoldable pub without : Bytes → List (Bytes × V) → List (Bytes × V)
  without k [] = []
  without k ((j, v) ∷ l) = let rest = without k l in if same j k then rest else (j, v) ∷ rest

  -- m[k] = v
  unfoldable pub insert : Bytes → V → List (Bytes × V) → List (Bytes × V)
  insert k v l = (k, v) ∷ without k l

  pub lookup-without :
      (k j : Bytes) (l : List (Bytes × V))
      → lookup j (without k l) ≡ (if same k j then none else lookup j l)
  unfolding lookup without
  lookup-without k j [] = ground arith
  lookup-without k j ((i, v) ∷ l) =
      ground (arith, lookup-without k j l, same_iff i k, same_iff i j, same_iff k j)

  pub lookup-insert :
      (k j : Bytes) (v : V) (l : List (Bytes × V))
      → lookup j (insert k v l) ≡ (if same k j then some v else lookup j l)
  unfolding lookup insert
  lookup-insert k j v l = ground (arith, lookup-without k j l)

  pub lookup-nil : (k : Bytes) → lookup k [] ≡ none
  unfolding lookup
  lookup-nil k = refl

  -- What a lookup found in a changed map was written there, or was there before.
  pub lookup-insert_cases :
      (k j : Bytes) (v w : V) (l : List (Bytes × V))
      → lookup j (insert k v l) ≡ some w
      → ((same k j ≡ true) × (v ≡ w)) ⊎ ((same k j ≡ false) × (lookup j l ≡ some w))
  lookup-insert_cases k j v w l e =
      let f = sym (lookup-insert k j v l) ∙ e in
      elim (Bool-cases (same k j)) [
        | inl s ↦ inl (s, some-injective v w (sym (if_true (same k j) (some v) (lookup j l) s) ∙ f))
        | inr s ↦ inr (s, sym (if_false (same k j) (some v) (lookup j l) s) ∙ f)
      ]

  pub lookup-insert_other :
      (k j : Bytes) (v : V) (l : List (Bytes × V))
      → same k j ≡ false
      → lookup j (insert k v l) ≡ lookup j l
  lookup-insert_other k j v l s =
      lookup-insert k j v l ∙ if_false (same k j) (some v) (lookup j l) s

  pub lookup-insert_here :
      (k : Bytes) (v : V) (l : List (Bytes × V)) → lookup k (insert k v l) ≡ some v
  lookup-insert_here k v l =
      lookup-insert k k v l ∙ if_true (same k k) (some v) (lookup k l) (same_refl k)

  pub lookup-without_cases :
      (k j : Bytes) (w : V) (l : List (Bytes × V))
      → lookup j (without k l) ≡ some w
      → (same k j ≡ false) × (lookup j l ≡ some w)
  lookup-without_cases k j w l e =
      let f = sym (lookup-without k j l) ∙ e in
      elim (Bool-cases (same k j)) [
        | inl s ↦ absurd (none-ne-some w (sym (if_true (same k j) none (lookup j l) s) ∙ f))
        | inr s ↦ (s, sym (if_false (same k j) none (lookup j l) s) ∙ f)
      ]

  pub lookup-without_other :
      (k j : Bytes) (l : List (Bytes × V)) → same k j ≡ false → lookup j (without k l) ≡ lookup j l
  lookup-without_other k j l s = lookup-without k j l ∙ if_false (same k j) none (lookup j l) s

  pub length-without : (k : Bytes) (l : List (Bytes × V)) → length (without k l) ≤ length l
  unfolding without
  length-without k [] = omega arith
  length-without k ((j, v) ∷ l) = ground (arith, length-without k l)

  pub length-without_found :
      (k : Bytes) (v : V) (l : List (Bytes × V))
      → lookup k l ≡ some v
      → length (without k l) < length l
  unfolding without lookup
  length-without_found k v [] h = cc
  length-without_found k v ((j, w) ∷ l) h = elim (Bool-cases (same j k)) [
    | inl s ↦ rw s (omega (arith, length-without k l))
    | inr s ↦ rw s (
        omega (
          arith,
          length-without_found k v l (sym (if_false (same j k) (some w) (lookup k l) s) ∙ h),
        ))
  ]

pub ruleset dict_laws = (lookup-without, lookup-insert, lookup-nil)
