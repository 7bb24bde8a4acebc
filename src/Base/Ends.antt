-- ===== src/Base/Ends.antt =====
-- What holds of the value and the state behind a computation that succeeds.
use mathlib.Core.Path.{◌≡◌, refl, subst}
use mathlib.Core.Bool.{Bool, true, false}
use vextra.Base.Logic.{if◌then◌else◌}
use vextra.Base.Result.{Err, Result, ok, err, M, ◌>>=◌, raise}
use vextra.Base.Gives.{Gives, Holds}

abbrev pub Success : {S A : Type 0} → (A → S → Type 0) → Result A × S → Type 0
Success Q (ok a, s) = Q a s
Success Q (err e, s) = Unit

pub record Ends {S A : Type 0} (Q : A → S → Type 0) (m : M S A) : Type 0 where
  pub at : (s : S) → Success Q (m s)

Ends-continue :
    {S A B : Type 0} {P : A → Type 0} {Q : B → S → Type 0} (x : Result A × S) (f : A → M S B)
    → Holds P (x.0)
    → ((a : A) → P a → Ends Q (f a))
    → Success Q (◌>>=◌ (λ (s : S). x) f x.1)
Ends-continue (ok a, s) f h k = (k a h).at s
Ends-continue (err e, s) f h k = tt

-- What follows may use what the value is known to be.
pub Ends-bind :
    {S A B : Type 0} {P : A → Type 0} {Q : B → S → Type 0} (m : M S A) (f : A → M S B)
    → Gives P m
    → ((a : A) → P a → Ends Q (f a))
    → Ends Q (m >>= f)
Ends-bind m f g k = record { at = λ s. Ends-continue (m s) f (g.at s) k }

pub Ends-raise : {S A : Type 0} {Q : A → S → Type 0} (e : Err) → Ends Q (raise e)
Ends-raise e = record { at = λ s. tt }

-- Each branch under its test.
pub Ends-if :
    {S A : Type 0} {Q : A → S → Type 0} (b : Bool) (m n : M S A)
    → (b ≡ true → Ends Q m)
    → (b ≡ false → Ends Q n)
    → Ends Q (if b then m else n)
Ends-if true m n hm hn = hm refl
Ends-if false m n hm hn = hn refl

pub Ends-ok :
    {S A : Type 0} {Q : A → S → Type 0} (m : M S A) (s s' : S) (a : A)
    → Ends Q m
    → m s ≡ (ok a, s')
    → Q a s'
Ends-ok m s s' a e h = subst (Success _) h (e.at s)

pub Ends-mono :
    {S A : Type 0} {Q R : A → S → Type 0} (m : M S A)
    → ((a : A) (s : S) → Q a s → R a s)
    → Ends Q m
    → Ends R m
Ends-mono {S} {A} {Q} {R} m f e = record { at = λ s. go (m s) (e.at s) }
  where
    go : (x : Result A × S) → Success Q x → Success R x
    go (ok a, s) q = f a s q
    go (err x, s) q = tt
