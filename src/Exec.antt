-- ===== src/Exec.antt =====
-- Handlers of the commander package: code that changes the shard manager's state and may return
-- an error or panic. What was changed before an error stays changed, so the state comes back
-- beside the error too. Errors are internal/errors/cmd_errors.go, without the message's text.
pub mod Keeps
use fleare.Prelude.{Bool, true, false, if◌then◌else◌}

-- `other_error` stands for the errors that carry none of the names of cmd_errors.go.
pub data Error : Type 0 where
  key_not_found invalid_command invalid_args invalid_value invalid_key invalid_map_key : Error
  invalid_character invalid_index invalid_reference other_error : Error

-- `crash` is a panic; no code of the repository recovers from one.
pub data Outcome {ℓ} (A : Type ℓ) : Type ℓ where
  ok : A → Outcome A
  err : Error → Outcome A
  crash : Outcome A

abbrev pub Exec : Type 0 → Type 0 → Type 0
Exec S A = S → Outcome A × S

module _ {S A : Type 0} where
  abbrev pub pure : A → Exec S A
  pure a s = (ok a, s)

  abbrev pub fail : Error → Exec S A
  fail e s = (err e, s)

  abbrev pub panic : Exec S A
  panic s = (crash, s)

abbrev pub on_outcome : {S A B : Type 0} → Outcome A × S → (A → Exec S B) → Outcome B × S
on_outcome (ok a, s) f = f a s
on_outcome (err e, s) f = (err e, s)
on_outcome (crash, s) f = (crash, s)

infixl 5 ◌>>=◌ ◌>>◌
abbrev pub ◌>>=◌ : {S A B : Type 0} → Exec S A → (A → Exec S B) → Exec S B
◌>>=◌ m f s = on_outcome (m s) f

abbrev pub ◌>>◌ : {S A B : Type 0} → Exec S A → Exec S B → Exec S B
◌>>◌ m k s = on_outcome (m s) (λ a. k)

-- A guard that returns an error unless the test holds.
abbrev pub require : {S : Type 0} → Bool → Error → Exec S (Unit {0})
require b e s = if b then (ok tt, s) else (err e, s)
