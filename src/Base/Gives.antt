-- ===== src/Base/Gives.antt =====
-- What a computation that may fail returns: a predicate on its value, if it does not fail.
use mathlib.Core.Path.{◌≡◌, refl, ap, subst}
use mathlib.Core.Bool.{Bool, true, false}
use vextra.Base.Logic.{if◌then◌else◌}
use vextra.Base.Result.{Err, Result, ok, err, M, ◌>>=◌, pure, raise, attempt}
use vextra.Base.Keeps.{Keeps}

-- A predicate on the value of a result, if it is one.
abbrev pub Holds : {A : Type 0} → (A → Type 0) → Result A → Type 0
Holds P (ok a) = P a
Holds P (err e) = Unit

pub Holds-if :
    {A : Type 0} (P : A → Type 0) (b : Bool) (x y : Result A)
    → Holds P x
    → Holds P y
    → Holds P (if b then x else y)
Holds-if P true x y hx hy = hx
Holds-if P false x y hx hy = hy

pub record Gives {S A : Type 0} (P : A → Type 0) (m : M S A) : Type 0 where
  pub at : (s : S) → Holds P (m s).0

module _ {S A : Type 0} {P : A → Type 0} where
  pub Gives-pure : (a : A) → P a → Gives P (pure {S = S} a)
  Gives-pure a p = record { at = λ s. p }

  pub Gives-raise : (e : Err) → Gives P (raise {S = S} e)
  Gives-raise e = record { at = λ s. tt }

  -- Each branch under its test.
  pub Gives-if :
      (b : Bool) (m n : M S A)
      → (b ≡ true → Gives P m)
      → (b ≡ false → Gives P n)
      → Gives P (if b then m else n)
  Gives-if true m n km kn = km refl
  Gives-if false m n km kn = kn refl

  -- A computation that succeeds gives what the predicate says.
  pub Gives-ok : (m : M S A) (s s' : S) (a : A) → Gives P m → m s ≡ (ok a, s') → P a
  Gives-ok m s s' a g e = subst (Holds P) (ap (λ x. x.0) e) (g.at s)

module _ {S A B : Type 0} {P : A → Type 0} {Q : B → Type 0} where
  Gives-continue :
      (x : Result A × S) (f : A → M S B)
      → Holds P (x.0)
      → ((a : A) → P a → Gives Q (f a))
      → Holds Q (◌>>=◌ (λ (s : S). x) f x.1).0
  Gives-continue (ok a, s) f h g = (g a h).at s
  Gives-continue (err e, s) f h g = tt

  pub Gives-bind :
      (m : M S A) (f : A → M S B) → Gives P m → ((a : A) → P a → Gives Q (f a)) → Gives Q (m >>= f)
  Gives-bind m f h g = record { at = λ s. Gives-continue (m s) f (h.at s) g }

-- The error as a value.
pub Gives-attempt :
    {S A : Type 0} {P : A → Type 0} (m : M S A) → Gives P m → Gives (Holds P) (attempt m)
Gives-attempt m g = record { at = λ s. g.at s }

-- Any computation gives something.
pub Gives-any : {S A : Type 0} (m : M S A) → Gives (λ a. Unit {0}) m
Gives-any {S} {A} m = record { at = λ s. go (m s).0 }
  where
    go : (r : Result A) → Holds (λ a. Unit {0}) r
    go (ok a) = tt
    go (err e) = tt

-- An invariant of states together with a predicate on the value that is returned.
pub record Does {S A : Type 0} (P : S → Type 0) (Q : A → Type 0) (m : M S A) : Type 0 where
  pub at : (s : S) → P s → P (m s).1 × Holds Q (m s).0

module _ {S A B : Type 0} {P : S → Type 0} {Q : A → Type 0} where
  Does-continue :
      (x : Result A × S) (f : A → M S B)
      → P x.1
      → Holds Q (x.0)
      → ((a : A) → Q a → Keeps P (f a))
      → P (◌>>=◌ (λ (s : S). x) f x.1).1
  Does-continue (ok a, s) f h q k = (k a q).at s h
  Does-continue (err e, s) f h q k = h

  -- The value is used by what follows.
  pub Keeps-Does :
      (m : M S A) (f : A → M S B) → Does P Q m → ((a : A) → Q a → Keeps P (f a)) → Keeps P (m >>= f)
  Keeps-Does m f d k = record { at = λ s h. let (h', q) = d.at s h in Does-continue (m s) f h' q k }

-- What a computation that succeeds gave, in some state.
abbrev pub Gave : {S A : Type 0} → M S A → A → Type 0
Gave {S} m a = (w w' : S) × (m w ≡ (ok a, w'))
