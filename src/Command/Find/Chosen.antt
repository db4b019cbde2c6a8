-- ===== src/Command/Find/Chosen.antt =====
-- Filter of commander/list_cmd/list_find.go against a description of the items that a query finds.
use fleare.Prelude.{
  ◌≡◌, ◌≢◌, ◌↔◌, refl, sym, ap, ◌∙◌, inl, inr, Option, none, some, List, [], ◌∷◌, ◌++◌,
  if◌then◌else◌, Bool-cases, Option-cases,
}
use mathlib.Core.List.{append_assoc, append-nil}
use mathlib.Core.Option.{some-injective, none-ne-some}
use fleare.Prelude.Bytes.{Bytes}
use fleare.Json.{Library, Value, null, bool, num, str, arr, obj, nil_map, get_field, or_null, slice}
use fleare.Json.Path.{split}
use fleare.Command.Find.{
  Query, filter_items, get_nested_value, looked_at, matches_text, field_text, plain_text,
}
use fleare.Command.Find.Meaning.{Tells, Meets, matches-Tells}

-- From a list, the items with the property, all of them and in the list's order.
pub data Chosen {A : Type 0} (P : A → Type 0) : List A → List A → Type 0 where
  empty : Chosen P [] []
  taken : {xs ys : List A} (x : A) → P x → Chosen P xs ys → Chosen P (x ∷ xs) (x ∷ ys)
  left : {xs ys : List A} (x : A) → ¬ P x → Chosen P xs ys → Chosen P (x ∷ xs) ys

module _ (lib : Library) where
  -- Under the keys, one in the other, the value has the text; what is missing under a key is null.
  abbrev pub Shows : List Bytes → Value lib.Float → Bytes → Type 0
  Shows [] v text = lib.show v ≡ text
  Shows (key ∷ keys) (obj fs) text = Shows keys (or_null (get_field key fs)) text
  Shows (key ∷ keys) nil_map text = Shows keys null text
  Shows (key ∷ keys) v text = ⊥

  -- An object is looked at through a field's dotted path, and any other item as it is, if the query
  -- names no field.
  abbrev pub LookedAt : Bytes → Value lib.Float → Bytes → Type 0
  LookedAt field (obj fs) text = (field ≢ []) × Shows (split b'.' field) (obj fs) text
  LookedAt field nil_map text = (field ≢ []) × Shows (split b'.' field) nil_map text
  LookedAt field v text = (field ≡ []) × (lib.show v ≡ text)

  abbrev pub Finds : Query → Value lib.Float → Type 0
  Finds q item = (text : Bytes) × LookedAt q.field item text × Meets lib q.op text q.value

  get_nested_value-Shows :
      (keys : List Bytes) (v : Value lib.Float) (text : Bytes)
      → (get_nested_value lib keys v ≡ some text) ↔ Shows keys v text
  unfolding get_nested_value
  get_nested_value-Shows [] v text = (some-injective (lib.show v) text, λ e. ap some e)
  get_nested_value-Shows (key ∷ keys) (obj fs) text =
      get_nested_value-Shows keys (or_null (get_field key fs)) text
  get_nested_value-Shows (key ∷ keys) nil_map text = get_nested_value-Shows keys null text
  get_nested_value-Shows (key ∷ keys) null text = (λ e. cc, λ h. absurd h)
  get_nested_value-Shows (key ∷ keys) (bool b) text = (λ e. cc, λ h. absurd h)
  get_nested_value-Shows (key ∷ keys) (num x) text = (λ e. cc, λ h. absurd h)
  get_nested_value-Shows (key ∷ keys) (str s) text = (λ e. cc, λ h. absurd h)
  get_nested_value-Shows (key ∷ keys) (arr vs) text = (λ e. cc, λ h. absurd h)

  field_text-LookedAt :
      (field : Bytes) (v : Value lib.Float) (text : Bytes)
      → (field_text lib field v ≡ some text) ↔ ((field ≢ []) × Shows (split b'.' field) v text)
  field_text-LookedAt [] v text = (λ e. cc, λ h. absurd (h.0 refl))
  field_text-LookedAt (c ∷ cs) v text =
      let (there, back) = get_nested_value-Shows (split b'.' (c ∷ cs)) v text in
      (λ e. ((λ n. cc), there e), λ h. back h.1)

  plain_text-LookedAt :
      (field : Bytes) (v : Value lib.Float) (text : Bytes)
      → (plain_text lib field v ≡ some text) ↔ ((field ≡ []) × (lib.show v ≡ text))
  plain_text-LookedAt [] v text =
      (λ e. (refl, some-injective (lib.show v) text e), λ h. ap some h.1)
  plain_text-LookedAt (c ∷ cs) v text = (λ e. cc, λ h. cc (h.0))

  looked_at-LookedAt :
      (field : Bytes) (v : Value lib.Float) (text : Bytes)
      → (looked_at lib field v ≡ some text) ↔ LookedAt field v text
  unfolding looked_at
  looked_at-LookedAt field (obj fs) text = field_text-LookedAt field (obj fs) text
  looked_at-LookedAt field nil_map text = field_text-LookedAt field nil_map text
  looked_at-LookedAt field null text = plain_text-LookedAt field null text
  looked_at-LookedAt field (bool b) text = plain_text-LookedAt field (bool b) text
  looked_at-LookedAt field (num x) text = plain_text-LookedAt field (num x) text
  looked_at-LookedAt field (str s) text = plain_text-LookedAt field (str s) text
  looked_at-LookedAt field (arr vs) text = plain_text-LookedAt field (arr vs) text

  Finds-Tells :
      (q : Query) (item : Value lib.Float)
      → Tells (matches_text lib q (looked_at lib q.field item)) (Finds q item)
  Finds-Tells q item = elim (Option-cases (looked_at lib q.field item)) [
    | inl hidden ↦ rw hidden (
      λ e. cc,
      λ e h. none-ne-some h.0 (sym hidden ∙ (looked_at-LookedAt q.field item h.0).1 h.1),
    )
    | inr (text, shown) ↦
        let (hit, miss) = matches-Tells lib q.op text q.value in
        rw shown (
          λ e. (text, (looked_at-LookedAt q.field item text).0 shown, hit e),
          λ e h. miss e (
              rw (some-injective text h.0 (sym shown ∙ (looked_at-LookedAt q.field item h.0).1 h.1))
                h.2),
        )
  ]

  unfoldable picked : Query → List (Value lib.Float) → List (Value lib.Float)
  picked q [] = []
  picked q (item ∷ items) =
      let rest = picked q items in
      if matches_text lib q (looked_at lib q.field item) then item ∷ rest else rest

  filter-picked :
      (q : Query) (items : List (Value lib.Float)) (result : Option (List (Value lib.Float)))
      → slice (filter_items lib q items result) ≡ slice result ++ picked q items
  unfolding filter_items picked
  filter-picked q [] result = sym (append-nil (slice result))
  filter-picked q (item ∷ items) result =
      elim (Bool-cases (matches_text lib q (looked_at lib q.field item))) [
        | inl hit ↦ rw hit (
            filter-picked q items (some (slice result ++ item ∷ []))
            ∙ append_assoc (slice result) (item ∷ []) (picked q items))
        | inr miss ↦ rw miss (filter-picked q items result)
      ]

  picked-Chosen :
      (q : Query) (items : List (Value lib.Float)) → Chosen (Finds q) items (picked q items)
  unfolding picked
  picked-Chosen q [] = empty
  picked-Chosen q (item ∷ items) =
      elim (Bool-cases (matches_text lib q (looked_at lib q.field item))) [
        | inl hit ↦ rw hit (taken item ((Finds-Tells q item).0 hit) (picked-Chosen q items))
        | inr miss ↦ rw miss (left item ((Finds-Tells q item).1 miss) (picked-Chosen q items))
      ]

  -- A query chooses from a list exactly the items that it describes, in the list's order: objects
  -- whose value under the field's dotted path, or, if the query names no field, other items, whose
  -- text meets the operator and the value. `:` asks for the same truth value if both are such, else
  -- for the same number if both are such, else for the same text, and `!` for the contrary; `>`, `<`,
  -- `>=` and `<=` ask for two numbers in that order, `~` for texts that are equal but for case.
  pub Chosen-filter_items :
      (q : Query) (items : List (Value lib.Float))
      → Chosen (Finds q) items (slice (filter_items lib q items none))
  Chosen-filter_items q items = rw (filter-picked q items none) (picked-Chosen q items)
