-- ===== src/Base/Keeps.antt =====
-- Invariants of computations that may fail: a predicate on states that holds behind the computation,
-- whether it returns or fails, if it held before.
use mathlib.Core.Bool.{Bool, true, false}
use vextra.Base.Logic.{if◌then◌else◌}
use vextra.Base.Result.{Err, Result, ok, err, M, ◌>>=◌, pure, raise, attempt}

pub record Keeps {S A : Type 0} (P : S → Type 0) (m : M S A) : Type 0 where
  pub at : (s : S) → P s → P (m s).1

module _ {S A : Type 0} {P : S → Type 0} where
  pub Keeps-pure : (a : A) → Keeps P (pure a)
  Keeps-pure a = record { at = λ s h. h }

  pub Keeps-raise : (e : Err) → Keeps P (raise {A = A} e)
  Keeps-raise e = record { at = λ s h. h }

  pub Keeps-attempt : (m : M S A) → Keeps P m → Keeps P (attempt m)
  Keeps-attempt m k = record { at = λ s h. k.at s h }

  pub Keeps-if : (b : Bool) (m n : M S A) → Keeps P m → Keeps P n → Keeps P (if b then m else n)
  Keeps-if true m n km kn = km
  Keeps-if false m n km kn = kn

module _ {S A B : Type 0} {P : S → Type 0} where
  pub Keeps-continue :
      (x : Result A × S) (f : A → M S B)
      → P x.1
      → ((a : A) → Keeps P (f a))
      → P (◌>>=◌ (λ (s : S). x) f x.1).1
  Keeps-continue (ok a, s) f h kf = (kf a).at s h
  Keeps-continue (err e, s) f h kf = h

  pub Keeps-bind :
      (m : M S A) (f : A → M S B) → Keeps P m → ((a : A) → Keeps P (f a)) → Keeps P (m >>= f)
  Keeps-bind m f km kf = record { at = λ s h. Keeps-continue (m s) f (km.at s h) kf }

pub ruleset keeps_rules = (Keeps-pure, Keeps-raise, Keeps-attempt, Keeps-if, Keeps-bind)
