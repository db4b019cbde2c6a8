-- ===== src/Command/Find/Meaning.antt =====
-- The operators of commander/list_cmd/list_find.go (valueEqual, compareFloat, match) against a
-- description of what each asks of two texts.
use fleare.Prelude.{
  ◌≡◌, refl, sym, ap, ◌∙◌, ◌⊎◌, inl, inr, Bool, true, false, not, Option, none, some, Bool-cases,
  arith,
}
use mathlib.Core.Bool.{true≢false}
use fleare.Prelude.Bytes.{Bytes, same, same→eq, same_refl}
use fleare.Json.{Library}
use fleare.Command.Find.{
  Op, ge, le, gt, lt, eq, ne, fold, matches, value_equal, bools_equal, floats_equal, compared,
}

-- Both texts stand for something, and that is related.
abbrev pub Both : {A : Type 0} → Option A → Option A → (A → A → Type 0) → Type 0
Both {A} o p R = (x : A) × (y : A) × (o ≡ some x) × (p ≡ some y) × R x y

abbrev pub Any : {A : Type 0} → A → A → Type 0
Any x y = Unit

-- The test says whether the statement holds.
abbrev pub Tells : Bool → Type 0 → Type 0
Tells b P = (b ≡ true → P) × (b ≡ false → ¬ P)

abbrev pub SameOf :
    {F : Type 0}
    → (F → F → Bool)
    → Option Bool
    → Option Bool
    → Option F
    → Option F
    → Bytes
    → Bytes
    → Type 0
SameOf float_eq o p f g a b =
    Both o p (λ x y. x ≡ y)
    ⊎ (((¬ Both o p Any) × Both f g (λ x y. float_eq x y ≡ true))
        ⊎ ((¬ Both o p Any) × ((¬ Both f g Any) × (a ≡ b))))

module _ (lib : Library) where
  -- Two texts are the same as truth values if both are such, else as numbers if both are such, else
  -- byte by byte.
  abbrev pub SameValue : Bytes → Bytes → Type 0
  SameValue a b =
      SameOf lib.float_eq (lib.parse_bool a) (lib.parse_bool b) (lib.parse_float a)
        (lib.parse_float b) a b

  abbrev pub Compares : (lib.Float → lib.Float → Bool) → Bytes → Bytes → Type 0
  Compares test a b = Both (lib.parse_float a) (lib.parse_float b) (λ x y. test x y ≡ true)

  -- What an operator asks of an item's text and the query's value.
  abbrev pub Meets : Option Op → Bytes → Bytes → Type 0
  Meets none text value = ⊥
  Meets (some eq) text value = SameValue text value
  Meets (some ne) text value = ¬ SameValue text value
  Meets (some fold) text value = lib.equal_fold text value ≡ true
  Meets (some gt) text value = Compares (λ x y. lib.float_lt y x) text value
  Meets (some lt) text value = Compares lib.float_lt text value
  Meets (some ge) text value = Compares (λ x y. lib.float_le y x) text value
  Meets (some le) text value = Compares lib.float_le text value

  module _ (o p : Option Bool) (a b : Bytes) where
    texts-Tells :
        (f g : Option lib.Float)
        → (¬ Both o p Any)
        → (¬ Both f g Any)
        → Tells (same a b) (SameOf lib.float_eq o p f g a b)
    texts-Tells f g n m = (λ e. inr (inr (n, (m, same→eq a b e))), differ)
      where
        differ : same a b ≡ false → SameOf lib.float_eq o p f g a b → ⊥
        differ e (inl (x, y, ex, ey, r)) = n (x, y, ex, ey, tt)
        differ e (inr (inl (_, (x, y, ex, ey, r)))) = m (x, y, ex, ey, tt)
        differ e (inr (inr (_, (_, q)))) = true≢false (sym (same_refl a) ∙ ap (λ t. same a t) q ∙ e)

    floats_equal-Tells :
        (f g : Option lib.Float)
        → (¬ Both o p Any)
        → Tells (floats_equal lib f g (same a b)) (SameOf lib.float_eq o p f g a b)
    floats_equal-Tells none none n = texts-Tells none none n (λ (x, y, ex, ey, r). cc)
    floats_equal-Tells none (some y) n = texts-Tells none (some y) n (λ (x, y', ex, ey, r). cc)
    floats_equal-Tells (some x) none n = texts-Tells (some x) none n (λ (x', y, ex, ey, r). cc)
    floats_equal-Tells (some x) (some y) n = (λ e. inr (inl (n, (x, y, refl, refl, e))), differ)
      where
        differ : lib.float_eq x y ≡ false → SameOf lib.float_eq o p (some x) (some y) a b → ⊥
        differ e (inl (x', y', ex, ey, r)) = n (x', y', ex, ey, tt)
        differ e (inr (inl (_, (x', y', ex, ey, r)))) = cc
        differ e (inr (inr (_, (m, _)))) = m (x, y, refl, refl, tt)

  equal-Tells :
      (o p : Option Bool) (f g : Option lib.Float) (a b : Bytes)
      → Tells
          (bools_equal lib o p (floats_equal lib f g (same a b)))
          (SameOf lib.float_eq o p f g a b)
  equal-Tells none none f g a b = floats_equal-Tells none none a b f g (λ (x, y, ex, ey, r). cc)
  equal-Tells none (some y) f g a b =
      floats_equal-Tells none (some y) a b f g (λ (x, y', ex, ey, r). cc)
  equal-Tells (some true) none f g a b =
      floats_equal-Tells (some true) none a b f g (λ (x, y, ex, ey, r). cc)
  equal-Tells (some false) none f g a b =
      floats_equal-Tells (some false) none a b f g (λ (x, y, ex, ey, r). cc)
  equal-Tells (some true) (some y) f g a b = (λ e. inl (true, y, refl, refl, sym e), differ)
    where
      differ : y ≡ false → SameOf lib.float_eq (some true) (some y) f g a b → ⊥
      differ e (inl (x', y', ex, ey, r)) = cc
      differ e (inr (inl (n, _))) = n (true, y, refl, refl, tt)
      differ e (inr (inr (n, _))) = n (true, y, refl, refl, tt)
  equal-Tells (some false) (some y) f g a b =
      (λ e. inl (false, y, refl, refl, ground arith), differ)
    where
      differ : not y ≡ false → SameOf lib.float_eq (some false) (some y) f g a b → ⊥
      differ e (inl (x', y', ex, ey, r)) = ground arith
      differ e (inr (inl (n, _))) = n (false, y, refl, refl, tt)
      differ e (inr (inr (n, _))) = n (false, y, refl, refl, tt)

  value_equal-Tells : (a b : Bytes) → Tells (value_equal lib a b) (SameValue a b)
  unfolding value_equal
  value_equal-Tells a b =
      equal-Tells (lib.parse_bool a) (lib.parse_bool b) (lib.parse_float a) (lib.parse_float b) a b

  compared-Tells :
      (test : lib.Float → lib.Float → Bool) (o p : Option lib.Float)
      → Tells (compared lib test o p) (Both o p (λ x y. test x y ≡ true))
  compared-Tells test none p = (λ e. cc, λ e (x, y, ex, ey, r). cc)
  compared-Tells test (some x) none = (λ e. cc, λ e (x', y, ex, ey, r). cc)
  compared-Tells test (some x) (some y) = (λ e. (x, y, refl, refl, e), λ e (x', y', ex, ey, r). cc)

  pub matches-Tells :
      (o : Option Op) (text value : Bytes) → Tells (matches lib text o value) (Meets o text value)
  unfolding matches
  matches-Tells none text value = (λ e. cc, λ e h. h)
  matches-Tells (some eq) text value = value_equal-Tells text value
  matches-Tells (some ne) text value =
      let (yes_same, no_same) = value_equal-Tells text value in
      elim (Bool-cases (value_equal lib text value)) [
        | inl e ↦ rw e (λ f. cc, λ f h. h (yes_same e))
        | inr e ↦ rw e (λ f. no_same e, λ f. cc)
      ]
  matches-Tells (some fold) text value = (λ e. e, λ e h. cc)
  matches-Tells (some gt) text value =
      compared-Tells (λ x y. lib.float_lt y x) (lib.parse_float text) (lib.parse_float value)
  matches-Tells (some lt) text value =
      compared-Tells lib.float_lt (lib.parse_float text) (lib.parse_float value)
  matches-Tells (some ge) text value =
      compared-Tells (λ x y. lib.float_le y x) (lib.parse_float text) (lib.parse_float value)
  matches-Tells (some le) text value =
      compared-Tells lib.float_le (lib.parse_float text) (lib.parse_float value)
