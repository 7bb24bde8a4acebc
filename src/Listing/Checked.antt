-- ===== src/Listing/Checked.antt =====
-- What a listing is that `checkEntries` accepts.
use vextra.Base.{
  ℕ, zero, suc, ◌<◌, ◌≡◌, refl, sym, ap, ◌∙◌, inl, inr, Bool, true, false, Option, some, List, [],
  ◌∷◌, ◌++◌, arith, if◌then◌else◌, Bool-cases, length, All, any, length-append, Text, text_eq,
  text_eq_refl, eq_of_text_eq, has_prefix, contains_byte,
}
use mathlib.Core.Path.{subst}
use mathlib.Core.Bool.{false≢true}
use mathlib.Core.List.{append_assoc}
use vextra.Base.Dict.{Dict, text_key}
use vextra.Path.{slash, dot, split, dir, bad_part, is_abs}
use vextra.Path.Parts.{IsPlain, IsPlain-left}
use vextra.Path.Ancestors.{
  Ancestor, last_slash_cases, dir_no_slash, dir_at, Ancestor-nearest, contains_byte-slash,
}
use vextra.Listing.{valid_rel, listed, below_link}

any-false-All {ℓ} :
    {A : Type ℓ} (p : A → Bool) (xs : List A) → any p xs ≡ false → All (λ x. p x ≡ false) xs
any-false-All p [] h = tt
any-false-All p (x ∷ xs) h = (ground arith, any-false-All p xs (ground arith))

pub valid_rel-IsRelative : (p : Text) → valid_rel p ≡ true → IsPlain p × (is_abs p ≡ false)
unfolding valid_rel is_abs
valid_rel-IsRelative p h = (any-false-All bad_part (split p) (ground arith), ground arith)

dot-not-IsPlain : ¬ IsPlain dot
unfolding bad_part split text_eq
dot-not-IsPlain h = cc (h.0)

-- The walk from a path's parent ends, and says whether an ancestor is a symlink.
pub data Walked (links : Dict Text Bool) (p : Text) (o : Option Bool) : Type 0 where
  clear : o ≡ some false → ((a : Text) → Ancestor a p → listed links a ≡ false) → Walked links p o
  found : o ≡ some true → (a : Text) → Ancestor a p → listed links a ≡ true → Walked links p o

is_abs-left : (c : ℕ) (a b : Text) → is_abs (c ∷ a) ≡ is_abs ((c ∷ a) ++ (slash ∷ b))
unfolding is_abs has_prefix
is_abs-left c a b = ground arith

below_step :
    (f : ℕ) (links : Dict Text Bool) (q : Text)
    → below_link (suc f) links q ≡ (
        if text_eq q dot
        then some false
        else if listed links q
        then some true
        else below_link f links (dir q))
unfolding below_link
below_step f links q = refl

is_abs-slash : (b : Text) → is_abs (slash ∷ b) ≡ true
unfolding is_abs has_prefix
is_abs-slash b = refl

IsPlain-ne_dot : (p : Text) → IsPlain p → text_eq p dot ≡ false
IsPlain-ne_dot p h = elim (Bool-cases (text_eq p dot)) [
  | inl e ↦ absurd (dot-not-IsPlain (subst IsPlain (eq_of_text_eq p dot e) h))
  | inr n ↦ n
]

walked_top :
    (f : ℕ) (links : Dict Text Bool) (p : Text)
    → contains_byte p slash ≡ false
    → Walked links p (below_link (suc f) links dot)
walked_top f links p n = Walked.clear (below_step f links dot ∙ rw (text_eq_refl dot)) λ a anc.
    absurd
      (false≢true (sym n ∙ ap (λ t. contains_byte t slash) anc.1 ∙ contains_byte-slash a anc.0))

module _ (f : ℕ) (links : Dict Text Bool) (q b : Text) (n : contains_byte b slash ≡ false) where
  -- The ancestors of a path are its parent and the ancestors of that.
  ancestors_clear :
      listed links q ≡ false
      → ((a : Text) → Ancestor a q → listed links a ≡ false)
      → (a : Text) → Ancestor a (q ++ (slash ∷ b))
      → listed links a ≡ false
  ancestors_clear here above a (r, e) = elim (Ancestor-nearest a q b r n e) [
    | inl eq ↦ rw eq here
    | inr anc ↦ above a anc
  ]

  walked_next :
      IsPlain q
      → Walked links q (below_link f links (dir q))
      → Walked links (q ++ (slash ∷ b)) (below_link (suc f) links q)
  walked_next plain w = elim (Bool-cases (listed links q)) [
    | inl l ↦ Walked.found (below_step f links q ∙ rw (IsPlain-ne_dot q plain, l)) q (b, refl) l
    | inr l ↦ more l w
  ]
    where
      step : listed links q ≡ false → below_link (suc f) links q ≡ below_link f links (dir q)
      step l = below_step f links q ∙ rw (IsPlain-ne_dot q plain, l)

      more :
          listed links q ≡ false
          → Walked links q (below_link f links (dir q))
          → Walked links (q ++ (slash ∷ b)) (below_link (suc f) links q)
      more l (Walked.clear e all) = Walked.clear (step l ∙ e) (ancestors_clear l all)
      more l (Walked.found e a (r, q') l') =
          Walked.found (step l ∙ e) a
            (r ++ (slash ∷ b), ap (λ t. t ++ (slash ∷ b)) q' ∙ append_assoc a (slash ∷ r) _) l'

pub below_link-Walked :
    (f : ℕ) (links : Dict Text Bool) (p : Text)
    → length p < f
    → IsPlain p
    → is_abs p ≡ false
    → Walked links p (below_link f links (dir p))
below_link-Walked zero links p h pl rel = absurd (omega arith)
below_link-Walked (suc f) links p h pl rel = elim (last_slash_cases p) [
  | inl n ↦ rw (dir_no_slash p n) (walked_top f links p n)
  | inr ([], (b, (e, n))) ↦ absurd (false≢true (sym rel ∙ ap is_abs e ∙ is_abs-slash b))
  | inr (c ∷ a, (b, (e, n))) ↦
      let plain : IsPlain (c ∷ a) = IsPlain-left (c ∷ a) b (subst IsPlain e pl) in
      let rel' : is_abs (c ∷ a) ≡ false = is_abs-left c a b ∙ ap is_abs (sym e) ∙ rel in
      let short : length (c ∷ a) < f =
        omega (arith, ap (λ (t : Text). length t) e, length-append (c ∷ a) (slash ∷ b)) in
      let w = below_link-Walked f links (c ∷ a) short plain rel' in
      subst (λ t. Walked links t (below_link (suc f) links (dir t))) (sym e)
        (rw (dir_at c a b rel' plain n) (walked_next f links (c ∷ a) b n plain w))
]
