-- ===== src/Base/Members.antt =====
-- Membership in a list, by recursion, for lists that the program builds and filters.
use mathlib.Core.Path.{◌≡◌, refl, subst, sym, ap, ◌∙◌}
use mathlib.Core.Logic.{◌⊎◌, inl, inr}
use mathlib.Core.Bool.{Bool, true, false}
use mathlib.Core.List.{List, [], ◌∷◌, ◌++◌}
use native.Mathlib.Omega.{arith}
use vextra.Base.Logic.{if◌then◌else◌}
use vextra.Base.Lists.{keep, All, any}

abbrev pub Elem : {A : Type 0} → A → List A → Type 0
Elem x [] = ⊥
Elem x (y ∷ ys) = (x ≡ y) ⊎ Elem x ys

module _ {A : Type 0} where
  pub Elem-append_left : (x : A) (xs ys : List A) → Elem x xs → Elem x (xs ++ ys)
  Elem-append_left x [] ys h = absurd h
  Elem-append_left x (y ∷ xs) ys (inl e) = inl e
  Elem-append_left x (y ∷ xs) ys (inr h) = inr (Elem-append_left x xs ys h)

  pub Elem-append_right : (x : A) (xs ys : List A) → Elem x ys → Elem x (xs ++ ys)
  Elem-append_right x [] ys h = h
  Elem-append_right x (y ∷ xs) ys h = inr (Elem-append_right x xs ys h)

  pub Elem-append : (x : A) (xs ys : List A) → Elem x (xs ++ ys) → Elem x xs ⊎ Elem x ys
  Elem-append x [] ys h = inr h
  Elem-append x (y ∷ xs) ys (inl e) = inl (inl e)
  Elem-append x (y ∷ xs) ys (inr h) = elim (Elem-append x xs ys h) [
    | inl l ↦ inl (inr l)
    | inr r ↦ inr r
  ]

  Elem-if :
      (b : Bool) (x y : A) (l : List A)
      → Elem x (if b then y ∷ l else l)
      → ((b ≡ true) × (x ≡ y)) ⊎ Elem x l
  Elem-if true x y l (inl e) = inl (refl, e)
  Elem-if true x y l (inr m) = inr m
  Elem-if false x y l m = inr m

  -- What a filter keeps was in the list and passes the test.
  pub Elem-keep :
      (p : A → Bool) (x : A) (xs : List A) → Elem x (keep p xs) → Elem x xs × (p x ≡ true)
  Elem-keep p x [] h = absurd h
  Elem-keep p x (y ∷ xs) h = elim (Elem-if (p y) x y (keep p xs) h) [
    | inl (t, e) ↦ (inl e, ap p e ∙ t)
    | inr m ↦ let r = Elem-keep p x xs m in (inr r.0, r.1)
  ]

  -- What holds of every element of a list, element by element.
  pub All-of_Elem : (P : A → Type 0) (xs : List A) → ((x : A) → Elem x xs → P x) → All P xs
  All-of_Elem P [] h = tt
  All-of_Elem P (x ∷ xs) h = (h x (inl refl), All-of_Elem P xs (λ y m. h y (inr m)))

  pub Elem_of_All : (P : A → Type 0) (x : A) (xs : List A) → All P xs → Elem x xs → P x
  Elem_of_All P x [] h m = absurd m
  Elem_of_All P x (y ∷ xs) h (inl e) = subst P (sym e) h.0
  Elem_of_All P x (y ∷ xs) h (inr m) = Elem_of_All P x xs h.1 m

  -- No element passes a test that some element could pass.
  pub any-false-Elem :
      (p : A → Bool) (x : A) (xs : List A) → any p xs ≡ false → Elem x xs → p x ≡ false
  any-false-Elem p x [] h m = absurd m
  any-false-Elem p x (y ∷ xs) h (inl e) = ap p e ∙ any_head p y xs h
    where
      any_head : (p : A → Bool) (y : A) (xs : List A) → any p (y ∷ xs) ≡ false → p y ≡ false
      any_head p y xs h = ground arith
  any-false-Elem p x (y ∷ xs) h (inr m) = any-false-Elem p x xs (ground arith) m
