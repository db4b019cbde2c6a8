-- ===== src/Store/View.antt =====
-- What a reader of internal/store/mem.go sees of a memory, and how each method changes it.
use fleare.Prelude.{
  ℕ, ◌≡◌, ◌∙◌, ap, ◌⊎◌, inl, inr, ◌↔◌, false, Option, none, some, arith, if◌then◌else◌, Bool-cases,
  Option-cases,
}
use fleare.Prelude.Int.{ℤ, pos, ◌≤ℤ◌, ◌<ℤ◌, ltb_ℤ}
use fleare.Prelude.Bytes.{Bytes, same, same_iff}
use fleare.Prelude.Dict.{lookup, lookup-without, lookup-insert}
use fleare.Store.{Object, Memory, past, get_read, get_drop, get, set, delete}

abbrev pub live : ℤ → Option Object → Option Object
live now none = none
live now (some obj) = if past now obj then none else some obj

-- The object that a `Get` at the time `now` would return.
unfoldable pub peek : ℤ → Memory → Bytes → Option Object
peek now m key = live now (lookup key m)

-- A reader finds the object under the key: it never expires, or the time that it names has not
-- passed.
abbrev pub Reads : ℤ → Memory → Bytes → Object → Type 0
Reads at m key obj = (lookup key m ≡ some obj) × ((obj.timestamp ≤ℤ pos 0) ⊎ (at ≤ℤ obj.timestamp))

get-eq-some :
    (now : ℤ) (key : Bytes) (m : Memory) (obj : Object)
    → (get now key m).0 ≡ some obj
    → Reads now m key obj
unfolding get past
get-eq-some now key m obj e = elim (Option-cases (lookup key m)) [
  | inl absent ↦ absurd (ground (arith, absent))
  | inr (o, found) ↦ elim (Bool-cases (past now o)) [
    | inl old ↦ absurd (ground (arith, found, old))
    | inr new ↦
        let one : o ≡ obj = ground (arith, found, new) in
        (found ∙ ap some one, rw (← one) (fresh o new))
  ]
]
  where
    fresh : (o : Object) → past now o ≡ false → (o.timestamp ≤ℤ pos 0) ⊎ (now ≤ℤ o.timestamp)
    fresh o new = elim (Bool-cases (ltb_ℤ (pos 0) o.timestamp)) [
      | inl t ↦ inr (ground arith)
      | inr t ↦ inl (ground arith)
    ]

Reads-past :
    (at : ℤ) (m : Memory) (key : Bytes) (obj : Object) → Reads at m key obj → past at obj ≡ false
unfolding past
Reads-past at m key obj (found, inl never) = ground arith
Reads-past at m key obj (found, inr time) = ground arith

Reads-get :
    (now : ℤ) (key : Bytes) (m : Memory) (obj : Object)
    → Reads now m key obj
    → get now key m ≡ (some obj, m)
unfolding get
Reads-get now key m obj r = ground (arith, r.0, Reads-past now m key obj r)

-- An object that is read later has not passed before.
Reads-kept :
    (now later : ℤ) (key j : Bytes) (m : Memory) (obj : Object)
    → now ≤ℤ later
    → Reads later m j obj
    → lookup j (get now key m).1 ≡ some obj
unfolding get
Reads-kept now later key j m obj h (found, live) = ground (
  arith,
  found,
  lookup-without key j m,
  same_iff key j,
  Reads-past now m j obj (found, earlier live),
)
  where
    earlier :
        (obj.timestamp ≤ℤ pos 0) ⊎ (later ≤ℤ obj.timestamp)
        → (obj.timestamp ≤ℤ pos 0) ⊎ (now ≤ℤ obj.timestamp)
    earlier (inl never) = inl never
    earlier (inr time) = inr (omega arith)

get-lookup :
    (now : ℤ) (key j : Bytes) (m : Memory) (obj : Object)
    → lookup j (get now key m).1 ≡ some obj
    → lookup j m ≡ some obj
unfolding get
get-lookup now key j m obj e = ground (arith, lookup-without key j m)

-- With no step of another goroutine between its two, `Get` returns an object exactly if it is under
-- the key and never expires, which a timestamp that is not positive says, or the time that it names
-- has not passed; and at any time that is not before, every key is read as without the call.
pub get-Reads :
    (now later : ℤ) (key j : Bytes) (m : Memory) (obj : Object)
    → now ≤ℤ later
    → (((get now key m).0 ≡ some obj) ↔ Reads now m key obj)
      × (Reads later (get now key m).1 j obj ↔ Reads later m j obj)
get-Reads now later key j m obj h = (
  (
    get-eq-some now key m obj,
    λ r. ap (λ (o : Option Object × Memory). o.0) (Reads-get now key m obj r),
  ),
  (λ r. (get-lookup now key j m obj r.0, r.1), λ r. (Reads-kept now later key j m obj h r, r.1)),
)

-- A `Set` that another goroutine makes between the two steps of a `Get` that found an expired object
-- is lost: the key is deleted with the new object.
get_drop-set :
    (now : ℤ) (key value : Bytes) (kind : ℕ) (m : Memory) (obj : Object)
    → lookup key m ≡ some obj
    → pos 0 <ℤ obj.timestamp
    → obj.timestamp <ℤ now
    → lookup key (get_drop (get_read now key m).1 key (set key value kind m)) ≡ none
unfolding get_read get_drop past
get_drop-set now key value kind m obj found expires old =
    ground (arith, found, lookup-without key key (set key value kind m), same_iff key key)

-- `Set` makes its key show the new object, which never expires, and no other key changes.
pub peek-set :
    (now : ℤ) (key value j : Bytes) (kind : ℕ) (m : Memory)
    → peek now (set key value kind m) j ≡ (
        if same key j
        then some (record { value = value; kind = kind; timestamp = pos 0 })
        else peek now m j)
unfolding set peek past
peek-set now key value j kind m = rw lookup-insert (ground arith)

-- After `Delete` the key shows nothing and no other key changes.
peek-delete :
    (now : ℤ) (key j : Bytes) (m : Memory)
    → peek now (delete key m).1 j ≡ (if same key j then none else peek now m j)
unfolding delete peek
peek-delete now key j m = ground (arith, lookup-without key j m, same_iff key j)
