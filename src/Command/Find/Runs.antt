-- ===== src/Command/Find/Runs.antt =====
-- The theorems on LIST.FIND at small queries.
use fleare.Prelude.{ℕ, ◌≡◌, refl, ltb, leb, ◌==◌, false, none, some, [], ◌∷◌}
use fleare.Prelude.Bytes.{Bytes}
use fleare.Json.{Library, Value, num, str, obj, end, field, slice}
use fleare.Command.Find.{ge, eq, Query, parse_path, filter_items}
use fleare.Command.Find.Parse.{parse_path-text}
use fleare.Command.Find.Chosen.{Chosen, Finds, Chosen-filter_items}

-- $a>=7
parse_path-text_example :
    parse_path (b'$' ∷ b'a' ∷ b'>' ∷ b'=' ∷ b'7' ∷ [])
    ≡ record { field = b'a' ∷ []; op = some ge; value = b'7' ∷ [] }
parse_path-text_example =
    parse_path-text ge (b'a' ∷ []) (b'7' ∷ [])
      ((refl, tt), (refl, tt), (refl, tt), (refl, tt), (refl, tt))
      ((refl, tt), (refl, tt), (refl, tt), (refl, tt), (refl, tt)) refl

-- Only texts can be shown.
abbrev shown : Value ℕ → Bytes
shown (str s) = s
shown v = []

abbrev texts : Library
texts = record {
  Float = ℕ;
  unmarshal = λ s. none;
  marshal = λ v. none;
  valid = λ s. false;
  parse_float = λ s. none;
  of_int = λ i. 0;
  float_eq = λ a b. a == b;
  float_lt = λ a b. ltb a b;
  float_le = λ a b. leb a b;
  show = shown;
  parse_bool = λ s. none;
  equal_fold = λ a b. false;
  one = 1;
  add = λ a b. a;
  sub = λ a b. a;
  runes = λ s. s;
  of_runes = λ s. s;
}

-- {"a": "x"}, {"a": "y"} and a number
abbrev x_item : Value ℕ
x_item = obj (field (b'a' ∷ []) (str (b'x' ∷ [])) end)

abbrev y_item : Value ℕ
y_item = obj (field (b'a' ∷ []) (str (b'y' ∷ [])) end)

abbrev x_query : Query
x_query = record { field = b'a' ∷ []; op = some eq; value = b'x' ∷ [] }

Chosen-filter_items_example :
    Chosen
      (Finds texts x_query)
      (x_item ∷ y_item ∷ num 1 ∷ [])
      (slice (filter_items texts x_query (x_item ∷ y_item ∷ num 1 ∷ []) none))
Chosen-filter_items_example = Chosen-filter_items texts x_query (x_item ∷ y_item ∷ num 1 ∷ [])

-- That is the first item only.
x_found : slice (filter_items texts x_query (x_item ∷ y_item ∷ num 1 ∷ []) none) ≡ x_item ∷ []
unfolding filter_items fleare.Command.Find.value_equal fleare.Json.Path.split fleare.Json.get_field
    fleare.Prelude.Bytes.same
x_found = refl
