-- ===== src/Prelude/Decimal.antt =====
-- strconv: decimal numerals, as `Itoa`, `FormatInt`, fmt's %d, `Atoi` and `ParseInt` in base 10.
use Prim.Native.Nat.{ℕ, zero, suc, ◌+◌, ◌-◌, ◌*◌, ◌/◌, ◌%◌, ◌^◌}
use mathlib.Core.Bool.{Bool, true, false, ◌&&◌}
use mathlib.Core.Option.{Option, none, some}
use mathlib.Core.List.{[], ◌∷◌}
use fleare.Prelude.Tests.{ltb, leb, ◌==◌, if◌then◌else◌}
use fleare.Prelude.Int.{ℤ, pos, negsuc}
use fleare.Prelude.Bytes.{Bytes}

-- The digits of `n` in front of `rest`; each round divides by ten.
unfoldable pub digits : ℕ → ℕ → Bytes → Bytes
digits zero n rest = rest
digits (suc fuel) n rest =
    let here = (48 + n % 10) ∷ rest in
    let more = digits fuel (n / 10) here in if ltb n 10 then here else more

unfoldable pub itoa : ℤ → Bytes
unfolding digits
itoa (pos n) = digits (suc n) n []
itoa (negsuc n) = b'-' ∷ digits (suc (suc n)) (suc n) []

unfoldable pub number : ℕ → Bytes → Option ℕ
number acc [] = some acc
number acc (c ∷ cs) =
    let more = number (acc * 10 + (c - 48)) cs in if leb 48 c && leb c 57 then more else none

-- At least one digit, and a value in the int64 range.
abbrev pub signed : Bool → Option ℕ → Option ℤ
signed neg none = none
signed false (some n) = if ltb n (2 ^ 63) then some (pos n) else none
signed true (some zero) = some (pos 0)
signed true (some (suc n)) = if ltb n (2 ^ 63) then some (negsuc n) else none

abbrev pub unsigned : Bool → Bytes → Option ℤ
unsigned neg [] = none
unsigned neg (c ∷ cs) = signed neg (number 0 (c ∷ cs))

unfoldable pub parse_int : Bytes → Option ℤ
unfolding number
parse_int [] = none
parse_int (c ∷ cs) =
    if c == b'-'
    then unsigned true cs
    else if c == b'+'
    then unsigned false cs
    else unsigned false (c ∷ cs)
