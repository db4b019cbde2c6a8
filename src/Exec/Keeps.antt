-- ===== src/Exec/Keeps.antt =====
-- Invariants of the actions of the commander package, one rule for each way to build an action.
use fleare.Prelude.{Bool, true, false}
use fleare.Exec.{
  Error, Outcome, ok, err, crash, Exec, pure, fail, panic, on_outcome, require, ◌>>=◌, ◌>>◌,
}

-- The action keeps `P`, whether it returns, fails or panics.
pub record Keeps {S A : Type 0} (P : S → Type 0) (m : Exec S A) : Type 0 where
  pub at : (s : S) → P s → P (m s).1

module _ {S A : Type 0} {P : S → Type 0} where
  pub Keeps-pure : (a : A) → Keeps P (pure a)
  Keeps-pure a = record { at = λ s h. h }

  pub Keeps-fail : (e : Error) → Keeps P (fail {A = A} e)
  Keeps-fail e = record { at = λ s h. h }

  pub Keeps-panic : Keeps P (panic {A = A})
  Keeps-panic = record { at = λ s h. h }

module _ {S : Type 0} {P : S → Type 0} where
  pub Keeps-require : (b : Bool) (e : Error) → Keeps P (require b e)
  Keeps-require true e = record { at = λ s h. h }
  Keeps-require false e = record { at = λ s h. h }

module _ {S A B : Type 0} {P : S → Type 0} where
  on_outcome-keeps :
      (r : Outcome A) (s : S) (f : A → Exec S B)
      → P s
      → ((a : A) → Keeps P (f a))
      → P (on_outcome (r, s) f).1
  on_outcome-keeps (ok a) s f h k = (k a).at s h
  on_outcome-keeps (err e) s f h k = h
  on_outcome-keeps crash s f h k = h

  pub Keeps-bind :
      (m : Exec S A) (f : A → Exec S B) → Keeps P m → ((a : A) → Keeps P (f a)) → Keeps P (m >>= f)
  Keeps-bind m f km kf = record { at = λ s h. on_outcome-keeps (m s).0 (m s).1 f (km.at s h) kf }

  pub Keeps-then : (m : Exec S A) (k : Exec S B) → Keeps P m → Keeps P k → Keeps P (m >> k)
  Keeps-then m k km kk = record {
    at = λ s h. on_outcome-keeps (m s).0 (m s).1 (λ a. k) (km.at s h) (λ a. kk);
  }

pub ruleset keeps_rules =
    (Keeps-pure, Keeps-fail, Keeps-panic, Keeps-require, Keeps-bind, Keeps-then)
