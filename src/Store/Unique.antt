-- ===== src/Store/Unique.antt =====
-- The association lists that stand for the maps of internal/store/mem.go and hold each key once,
-- as a Go map does, and passes over them.
use fleare.Prelude.{◌≡◌, refl, Option, none, some, List, [], ◌∷◌, arith, if◌then◌else◌}
use fleare.Prelude.Int.{ℤ}
use fleare.Prelude.Bytes.{Bytes, same_iff}
use fleare.Prelude.Dict.{lookup, without, insert, lookup-without}
use fleare.Store.{Object, Memory, due, kept}

abbrev pub Unique {ℓ} : {V : Type ℓ} → List (Bytes × V) → Type ℓ
Unique [] = Unit
Unique ((k, v) ∷ l) = (lookup k l ≡ none) × Unique l

module _ {ℓ} {V : Type ℓ} where
  pub without-Unique : (k : Bytes) (l : List (Bytes × V)) → Unique l → Unique (without k l)
  unfolding without
  without-Unique k [] u = u
  without-Unique k ((j, v) ∷ l) u = ground (arith, without-Unique k l, lookup-without k j l)

  pub insert-Unique : (k : Bytes) (v : V) (l : List (Bytes × V)) → Unique l → Unique (insert k v l)
  unfolding insert
  insert-Unique k v l u = ground (arith, without-Unique k l, lookup-without k k l, same_iff k k)

abbrev pub unless_due : ℤ → Option Object → Option Object
unless_due now none = none
unless_due now (some obj) = if due now obj then none else some obj

pub lookup-kept :
    (now : ℤ) (j : Bytes) (m : Memory)
    → Unique m
    → lookup j (kept now m) ≡ unless_due now (lookup j m)
unfolding kept lookup
lookup-kept now j [] u = refl
lookup-kept now j ((k, obj) ∷ m) u = ground (arith, lookup-kept now j m, same_iff k j)

pub kept-Unique : (now : ℤ) (m : Memory) → Unique m → Unique (kept now m)
unfolding kept
kept-Unique now [] u = u
kept-Unique now ((k, obj) ∷ m) u = ground (arith, kept-Unique now m, lookup-kept now k m)
