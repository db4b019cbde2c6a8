-- ===== src/Json/Edit/Paths.antt =====
-- Reading a JSON object after addNestedKey (commander/json_cmd/json_add.go) and removeNestedKey
-- (json_remove.go).
use fleare.Prelude.{◌≡◌, refl, ◌∙◌, ◌⊎◌, inl, inr, true, false, Option, none, some, List, [], ◌∷◌}
use fleare.Prelude.Bytes.{Bytes, same, same_refl, same→eq}
use fleare.Json.{
  Value, Fields, null, bool, num, str, arr, obj, nil_map, end, get_field, set_field, delete_field,
}
use fleare.Json.Path.{below, read_nested_key}
use fleare.Json.Edit.{put_back, walk, add_nested_key, remove_nested_key}
use fleare.Json.Edit.Lookup.{get_field-set_field, get_field-delete_field}

-- Neither path leads through the other's place.
abbrev pub Apart : List Bytes → List Bytes → Type 0
Apart [] keys = ⊥
Apart (j ∷ js) [] = ⊥
Apart (j ∷ js) (k ∷ ks) = (same k j ≡ false) ⊎ ((same k j ≡ true) × Apart js ks)

module _ {F : Type 0} where
  -- What a path reads that begins with `j`, by what is behind that key.
  abbrev read_on : List Bytes → Option (Value F) → Option (Value F)
  read_on [] o = o
  read_on (key ∷ keys) o = below o (read_nested_key (key ∷ keys))

  read-cons :
      (j : Bytes) (js : List Bytes) (fs : Fields F)
      → read_nested_key (j ∷ js) fs ≡ read_on js (get_field j fs)
  unfolding read_nested_key
  read-cons j [] fs = refl
  read-cons j (key ∷ keys) fs = refl

  -- A place that is walked to and written.
  module _ (P : Option (Fields F) → Type 0) where
    walk-cases :
        (k : Bytes) (fs : Fields F) (o : Option (Value F)) (missing : Option (Fields F))
        (next : Fields F → Option (Fields F))
        → (o ≡ none → P missing)
        → ((inner : Fields F) → o ≡ some (obj inner) → P (put_back k fs (next inner)))
        → P none
        → P (walk k fs o missing next)
    walk-cases k fs none missing next a b c = a refl
    walk-cases k fs (some (obj inner)) missing next a b c = b inner refl
    walk-cases k fs (some null) missing next a b c = c
    walk-cases k fs (some (bool x)) missing next a b c = c
    walk-cases k fs (some (num x)) missing next a b c = c
    walk-cases k fs (some (str x)) missing next a b c = c
    walk-cases k fs (some (arr x)) missing next a b c = c
    walk-cases k fs (some nil_map) missing next a b c = c

  -- The changed object, if there is one, has the property.
  abbrev Ends : (Fields F → Type 0) → Option (Fields F) → Type 0
  Ends P none = Unit
  Ends P (some fs) = P fs

  -- Reading behind the key whose object was put back.
  read-put_back :
      (k : Bytes) (ks : List Bytes) (fs : Fields F) (o : Option (Fields F)) (w : Option (Value F))
      (key : Bytes)
      → Ends (λ inner. read_nested_key (key ∷ ks) inner ≡ w) o
      → Ends (λ fs'. read_nested_key (k ∷ key ∷ ks) fs' ≡ w) (put_back k fs o)
  unfolding read_nested_key
  read-put_back k ks fs none w key h = tt
  read-put_back k ks fs (some inner) w key h =
      rw (get_field-set_field k k (obj inner) fs, same_refl k) h

  add-reads :
      (k : Bytes) (ks : List Bytes) (v : Value F) (fs : Fields F)
      → Ends (λ fs'. read_nested_key (k ∷ ks) fs' ≡ some v) (add_nested_key (k ∷ ks) v fs)
  unfolding add_nested_key read_nested_key
  add-reads k [] v fs = rw (get_field-set_field k k v fs, same_refl k) refl
  add-reads k (key ∷ keys) v fs =
      walk-cases (Ends (λ fs'. read_nested_key (k ∷ key ∷ keys) fs' ≡ some v)) k fs (get_field k fs)
        _ _
        (λ e.
          read-put_back k keys fs (add_nested_key (key ∷ keys) v end) (some v) key
            (add-reads key keys v end))
        (λ inner e.
          read-put_back k keys fs (add_nested_key (key ∷ keys) v inner) (some v) key
            (add-reads key keys v inner))
        tt

  read-end : (k : Bytes) (ks : List Bytes) → read_nested_key {F = F} (k ∷ ks) end ≡ none
  unfolding read_nested_key get_field
  read-end k [] = refl
  read-end k (key ∷ keys) = refl

  Ends-map :
      (P Q : Fields F → Type 0) (o : Option (Fields F))
      → ((fs : Fields F) → P fs → Q fs)
      → Ends P o
      → Ends Q o
  Ends-map P Q none f h = tt
  Ends-map P Q (some fs) f h = f fs h

  -- A path that begins elsewhere, or that reads the same behind the key.
  apart-put_back :
      (k j : Bytes) (js : List Bytes) (fs : Fields F) (o : Option (Fields F))
      → (same k j ≡ false)
        ⊎ ((same k j ≡ true)
            × Ends (λ inner. read_on js (some (obj inner)) ≡ read_on js (get_field k fs)) o)
      → Ends (λ fs'. read_nested_key (j ∷ js) fs' ≡ read_nested_key (j ∷ js) fs) (put_back k fs o)
  apart-put_back k j js fs none h = tt
  apart-put_back k j js fs (some inner) (inl other) =
      rw
        (
          read-cons j js fs,
          read-cons j js (set_field k (obj inner) fs),
          get_field-set_field k j (obj inner) fs,
          other,
        )
        refl
  apart-put_back k j js fs (some inner) (inr (one, h)) =
      rw
        (
          read-cons j js fs,
          read-cons j js (set_field k (obj inner) fs),
          get_field-set_field k j (obj inner) fs,
          one,
        )
        (rw (← same→eq k j one) h)

  -- One step of a walk, by what the walk does behind the key.
  walk-Apart :
      (j : Bytes) (js : List Bytes) (k key : Bytes) (keys : List Bytes) (fs : Fields F)
      (missing : Option (Fields F)) (next : Fields F → Option (Fields F))
      → Apart (j ∷ js) (k ∷ key ∷ keys)
      → (get_field k fs ≡ none
          → Ends (λ fs'. read_nested_key (j ∷ js) fs' ≡ read_nested_key (j ∷ js) fs) missing)
      → ((j' : Bytes) (js' : List Bytes) (inner : Fields F)
          → Apart (j' ∷ js') (key ∷ keys)
          → Ends
              (λ inner'. read_nested_key (j' ∷ js') inner' ≡ read_nested_key (j' ∷ js') inner)
              (next inner))
      → Ends
          (λ fs'. read_nested_key (j ∷ js) fs' ≡ read_nested_key (j ∷ js) fs)
          (walk k fs (get_field k fs) missing next)
  walk-Apart j js k key keys fs missing next a m ih =
      walk-cases (Ends (λ fs'. read_nested_key (j ∷ js) fs' ≡ read_nested_key (j ∷ js) fs)) k fs
        (get_field k fs) missing next m
        (λ inner e. apart-put_back k j js fs (next inner) (behind j js inner e a ih)) tt
    where
      behind :
          (j : Bytes) (js : List Bytes) (inner : Fields F)
          → get_field k fs ≡ some (obj inner)
          → Apart (j ∷ js) (k ∷ key ∷ keys)
          → ((j' : Bytes) (js' : List Bytes) (inner : Fields F)
              → Apart (j' ∷ js') (key ∷ keys)
              → Ends
                  (λ inner'. read_nested_key (j' ∷ js') inner' ≡ read_nested_key (j' ∷ js') inner)
                  (next inner))
          → (same k j ≡ false)
            ⊎ ((same k j ≡ true)
                × Ends
                    (λ inner'. read_on js (some (obj inner')) ≡ read_on js (get_field k fs))
                    (next inner))
      behind j js inner e (inl other) ih = inl other
      behind j [] inner e (inr (one, a)) ih = absurd a
      behind j (j' ∷ js') inner e (inr (one, a)) ih = inr (one, rw e (ih j' js' inner a))

  -- The same where nothing was behind the key, and `o` was made from the empty object.
  missing-Apart :
      (j : Bytes) (js : List Bytes) (k key : Bytes) (keys : List Bytes) (fs : Fields F)
      (o : Option (Fields F))
      → Apart (j ∷ js) (k ∷ key ∷ keys)
      → get_field k fs ≡ none
      → ((j' : Bytes) (js' : List Bytes)
          → Apart (j' ∷ js') (key ∷ keys)
          → Ends (λ inner. read_nested_key (j' ∷ js') inner ≡ read_nested_key (j' ∷ js') end) o)
      → Ends (λ fs'. read_nested_key (j ∷ js) fs' ≡ read_nested_key (j ∷ js) fs) (put_back k fs o)
  missing-Apart j js k key keys fs o (inl other) e ih = apart-put_back k j js fs o (inl other)
  missing-Apart j [] k key keys fs o (inr (one, a)) e ih = absurd a
  missing-Apart j (j' ∷ js') k key keys fs o (inr (one, a)) e ih =
      apart-put_back k j (j' ∷ js') fs o
        (inr (one, rw e (Ends-map _ _ o (λ fs h. h ∙ read-end j' js') (ih j' js' a))))

  add-Apart :
      (j : Bytes) (js : List Bytes) (k : Bytes) (ks : List Bytes) (v : Value F) (fs : Fields F)
      → Apart (j ∷ js) (k ∷ ks)
      → Ends
          (λ fs'. read_nested_key (j ∷ js) fs' ≡ read_nested_key (j ∷ js) fs)
          (add_nested_key (k ∷ ks) v fs)
  unfolding add_nested_key
  add-Apart j js k [] v fs (inl other) =
      rw (read-cons j js fs, read-cons j js (set_field k v fs), get_field-set_field k j v fs, other)
        refl
  add-Apart j [] k [] v fs (inr (one, a)) = absurd a
  add-Apart j (j' ∷ js') k [] v fs (inr (one, a)) = absurd a
  add-Apart j js k (key ∷ keys) v fs a =
      walk-Apart j js k key keys fs _ (add_nested_key (key ∷ keys) v) a
        (λ e.
          missing-Apart j js k key keys fs (add_nested_key (key ∷ keys) v end) a e
            (λ j' js' a'. add-Apart j' js' key keys v end a'))
        (λ j' js' inner a'. add-Apart j' js' key keys v inner a')

  remove-reads :
      (k : Bytes) (ks : List Bytes) (fs : Fields F)
      → Ends (λ fs'. read_nested_key (k ∷ ks) fs' ≡ none) (remove_nested_key (k ∷ ks) fs)
  unfolding remove_nested_key read_nested_key
  remove-reads k [] fs = rw (get_field-delete_field k k fs, same_refl k) refl
  remove-reads k (key ∷ keys) fs =
      walk-cases (Ends (λ fs'. read_nested_key (k ∷ key ∷ keys) fs' ≡ none)) k fs (get_field k fs) _
        _ (λ e. rw e refl)
        (λ inner e.
          read-put_back k keys fs (remove_nested_key (key ∷ keys) inner) none key
            (remove-reads key keys inner))
        tt

  remove-Apart :
      (j : Bytes) (js : List Bytes) (k : Bytes) (ks : List Bytes) (fs : Fields F)
      → Apart (j ∷ js) (k ∷ ks)
      → Ends
          (λ fs'. read_nested_key (j ∷ js) fs' ≡ read_nested_key (j ∷ js) fs)
          (remove_nested_key (k ∷ ks) fs)
  unfolding remove_nested_key
  remove-Apart j js k [] fs (inl other) =
      rw
        (
          read-cons j js fs,
          read-cons j js (delete_field k fs),
          get_field-delete_field k j fs,
          other,
        )
        refl
  remove-Apart j [] k [] fs (inr (one, a)) = absurd a
  remove-Apart j (j' ∷ js') k [] fs (inr (one, a)) = absurd a
  remove-Apart j js k (key ∷ keys) fs a =
      walk-Apart j js k key keys fs (some fs) (remove_nested_key (key ∷ keys)) a (λ e. refl)
        (λ j' js' inner a'. remove-Apart j' js' key keys inner a')

  ended :
      (P : Fields F → Type 0) (o : Option (Fields F)) (fs : Fields F)
      → o ≡ some fs
      → Ends P o
      → P fs
  ended P o fs e h = rw e at h

  -- If `addNestedKey` succeeds at a path, reading the path in the changed object gives the value, and
  -- reading any path that neither leads through the changed place nor ends above it gives what it
  -- gave before.
  pub read-add_nested_key :
      (k : Bytes) (ks : List Bytes) (v : Value F) (fs fs' : Fields F) (j : Bytes) (js : List Bytes)
      → add_nested_key (k ∷ ks) v fs ≡ some fs'
      → Apart (j ∷ js) (k ∷ ks)
      → (read_nested_key (k ∷ ks) fs' ≡ some v)
        × (read_nested_key (j ∷ js) fs' ≡ read_nested_key (j ∷ js) fs)
  read-add_nested_key k ks v fs fs' j js e a =
      (ended _ _ fs' e (add-reads k ks v fs), ended _ _ fs' e (add-Apart j js k ks v fs a))

  -- If `removeNestedKey` succeeds at a path, reading the path in the changed object finds nothing,
  -- and reading any path that neither leads through the changed place nor ends above it gives what
  -- it gave before.
  pub read-remove_nested_key :
      (k : Bytes) (ks : List Bytes) (fs fs' : Fields F) (j : Bytes) (js : List Bytes)
      → remove_nested_key (k ∷ ks) fs ≡ some fs'
      → Apart (j ∷ js) (k ∷ ks)
      → (read_nested_key (k ∷ ks) fs' ≡ none)
        × (read_nested_key (j ∷ js) fs' ≡ read_nested_key (j ∷ js) fs)
  read-remove_nested_key k ks fs fs' j js e a =
      (ended _ _ fs' e (remove-reads k ks fs), ended _ _ fs' e (remove-Apart j js k ks fs a))
