-- ===== src/Command/Text/Range.antt =====
-- getRange of commander/string_cmd/str_range.go, by the sign and the size of its start.
use fleare.Prelude.{
  ℕ, zero, suc, ◌+◌, ◌-◌, ◌≤◌, ◌<◌, ◌^◌, ◌≡◌, refl, ap, none, some, List, [], ◌∷◌, length, take,
  drop, length-drop, ltb, if◌then◌else◌, arith,
}
use fleare.Prelude.Int.{pos, negsuc, ◌+ℤ◌, wrap64}
use fleare.Command.Text.{range_start, range_end, slice_runes, get_range}

take-all :
    {A : Type 0} (n m : ℕ) (xs : List A) → length xs ≤ n → length xs ≤ m → take n xs ≡ take m xs
take-all zero zero xs h k = refl
take-all zero (suc m) [] h k = refl
take-all zero (suc m) (x ∷ xs) h k = absurd (omega arith)
take-all (suc n) zero [] h k = refl
take-all (suc n) zero (x ∷ xs) h k = absurd (omega arith)
take-all (suc n) (suc m) [] h k = refl
take-all (suc n) (suc m) (x ∷ xs) h k =
    ap (λ t. x ∷ t) (take-all n m xs (omega arith) (omega arith))

cut :
    (start n : ℕ) (runes : List ℕ)
    → start ≤ length runes
    → slice_runes
        (pos start)
        (if ltb (start + n) (length runes) then pos (start + n) else pos (length runes))
        runes
      ≡ some (take n (drop start runes))
unfolding slice_runes
cut start n runes h =
    ground (arith, take-all (length runes - start) n (drop start runes), length-drop start runes)

-- For a start within the text and an end that is not negative, `getRange` returns the runes from
-- the start on, as many as the end says or as there are; lengths and offsets are below 2^62.
pub get_range-substring :
    (runes : List ℕ) (start n : ℕ)
    → start ≤ length runes
    → length runes < 2 ^ 62
    → n < 2 ^ 62
    → get_range runes (pos start) (pos n) ≡ some (take n (drop start runes))
unfolding get_range range_start range_end ◌+ℤ◌ wrap64
get_range-substring runes start n h k l = ground (arith, cut start n runes h)

-- A negative start within the text counts from its end: `getRange` returns the runes from there
-- on, as many as an end that is not negative says or as there are; sizes are below 2^62.
get_range-suffix :
    (runes : List ℕ) (k n : ℕ)
    → suc k ≤ length runes
    → length runes < 2 ^ 62
    → n < 2 ^ 62
    → get_range runes (negsuc k) (pos n) ≡ some (take n (drop (length runes - suc k) runes))
unfolding get_range range_start range_end ◌+ℤ◌ wrap64
get_range-suffix runes k n h l m = ground (arith, cut (length runes - suc k) n runes)

-- If a negative start lies in front of the text by more than the end, which is not negative,
-- `getRange` slices with a negative bound, which panics; the start is above -2^62.
pub get_range-panics :
    (runes : List ℕ) (k n : ℕ)
    → length runes + n ≤ k
    → k < 2 ^ 62
    → get_range runes (negsuc k) (pos n) ≡ none
unfolding get_range range_start range_end slice_runes ◌+ℤ◌ wrap64
get_range-panics runes k n h l = ground arith
