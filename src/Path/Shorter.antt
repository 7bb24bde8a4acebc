-- ===== src/Path/Shorter.antt =====
-- The lengths of `path.Clean` and `path.Dir` of absolute paths.
use vextra.Base.{
  ℕ, ◌+◌, ◌-◌, ◌≤◌, ◌<◌, ◌≡◌, refl, sym, ap, ◌∙◌, ◌⊎◌, inl, inr, Bool, true, false, ◌||◌, List, [],
  ◌∷◌, ◌++◌, arith, ◌==◌, Bool-cases, length, length-append, Text, text_eq, eq_of_text_eq,
  has_prefix, contains_byte,
}
use mathlib.Core.List.{reverse, reverse-cons}
use vextra.Path.{
  slash, dot, dotdot, split, join, clean, clean_loop, clean_step, back, is_abs, add_to_first,
  up_to_last_slash, dir,
}
use vextra.Path.Parts.{split-append}
use vextra.Path.Ancestors.{last_slash_cases, up_to_last_slash_at}

-- The length of the elements, each with a slash.
abbrev weight : List Text → ℕ
weight [] = 0
weight (p ∷ ps) = length p + 1 + weight ps

weight-append : (ps qs : List Text) → weight (ps ++ qs) ≡ weight ps + weight qs
weight-append [] qs = omega arith
weight-append (p ∷ ps) qs = omega (arith, weight-append ps qs)

weight-reverse : (ps : List Text) → weight (reverse ps) ≡ weight ps
weight-reverse [] = refl
weight-reverse (p ∷ ps) =
    ap weight (reverse-cons p ps)
    ∙ weight-append (reverse ps) (p ∷ [])
    ∙ omega (arith, weight-reverse ps)

length-join : (ps : List Text) → length (join ps) ≡ weight ps - 1
unfolding join
length-join [] = refl
length-join (p ∷ []) = omega arith
length-join (p ∷ q ∷ ps) =
    length-append p (slash ∷ join (q ∷ ps)) ∙ omega (arith, length-join (q ∷ ps))

weight-add_to_first :
    (c : ℕ) (ps : List Text) → 0 < weight ps → weight (add_to_first c ps) ≡ weight ps + 1
weight-add_to_first c [] h = absurd (omega arith)
weight-add_to_first c (p ∷ ps) h = omega arith

weight-split : (s : Text) → weight (split s) ≡ length s + 1
unfolding split
weight-split [] = refl
weight-split (c ∷ s) = elim (Bool-cases (c == slash)) [
  | inl e ↦ rw e (omega (arith, weight-split s))
  | inr e ↦ rw e (
      omega
        (arith, weight-split s, weight-add_to_first c (split s) (omega (arith, weight-split s))))
]

weight-back : (stack : List Text) → weight (back true stack) ≤ weight stack + 3
unfolding back
weight-back [] = omega arith
weight-back (t ∷ ts) = ground arith

weight-clean_step :
    (stack : List Text) (p : Text)
    → weight (clean_step true stack p) ≤ weight stack + (length p + 1)
unfolding clean_step
weight-clean_step stack p = elim (Bool-cases (text_eq p [] || text_eq p dot)) [
  | inl e ↦ rw e (omega arith)
  | inr e ↦ elim (Bool-cases (text_eq p dotdot)) [
    | inl q ↦ rw (e, q) (omega (arith, weight-back stack, ap length (eq_of_text_eq p dotdot q)))
    | inr q ↦ rw (e, q) (omega arith)
  ]
]

weight-clean_loop :
    (stack ps : List Text) → weight (clean_loop true stack ps) ≤ weight stack + weight ps
unfolding clean_loop
weight-clean_loop stack [] = omega (arith, weight-reverse stack)
weight-clean_loop stack (p ∷ ps) =
    omega (arith, weight-clean_step stack p, weight-clean_loop (clean_step true stack p) ps)

clean_loop-last_nil :
    (rooted : Bool) (stack ps : List Text)
    → clean_loop rooted stack (ps ++ ([] ∷ [])) ≡ clean_loop rooted stack ps
unfolding clean_loop clean_step text_eq
clean_loop-last_nil rooted stack [] = refl
clean_loop-last_nil rooted stack (p ∷ ps) =
    clean_loop-last_nil rooted (clean_step rooted stack p) ps

clean_rooted : (t : Text) → clean (slash ∷ t) ≡ slash ∷ join (clean_loop true [] (split t))
unfolding clean split is_abs clean_loop clean_step text_eq has_prefix
clean_rooted t = refl

length-clean_rooted : (t : Text) → length (join (clean_loop true [] (split t))) ≤ length t
length-clean_rooted t = omega (
  arith,
  length-join (clean_loop true [] (split t)),
  weight-clean_loop [] (split t),
  weight-split t,
)

clean_rooted-slash : (t : Text) → clean (slash ∷ (t ++ (slash ∷ []))) ≡ clean (slash ∷ t)
unfolding split
clean_rooted-slash t =
    clean_rooted (t ++ (slash ∷ []))
    ∙ ap (λ ps. slash ∷ join (clean_loop true [] ps)) (split-append t [])
    ∙ ap (λ ps. slash ∷ join ps) (clean_loop-last_nil true [] (split t))
    ∙ sym (clean_rooted t)

clean_rooted_split :
    (t : Text) → (q : Text) × (clean (slash ∷ t) ≡ slash ∷ q) × (length q ≤ length t)
clean_rooted_split t = (join (clean_loop true [] (split t)), clean_rooted t, length-clean_rooted t)

abbrev pub Shorter : Text → Type 0
Shorter t =
    (q : Text) × (dir (slash ∷ t) ≡ slash ∷ q)
    × ((dir (slash ∷ t) ≡ slash ∷ t) ⊎ (length q < length t))

dir_split :
    (p a b : Text)
    → p ≡ a ++ (slash ∷ b)
    → contains_byte b slash ≡ false
    → dir p ≡ clean (a ++ (slash ∷ []))
unfolding dir
dir_split p a b e n = ap clean (ap up_to_last_slash e ∙ up_to_last_slash_at a b n)

clean-slash : clean (slash ∷ []) ≡ slash ∷ []
unfolding clean split join is_abs clean_loop clean_step text_eq has_prefix
clean-slash = refl

dir_top : (t : Text) → dir (slash ∷ t) ≡ slash ∷ [] → Shorter t
dir_top [] e = ([], e, inl e)
dir_top (c ∷ t) e = ([], e, inr (omega arith))

dir_below : (t a b : Text) → t ≡ a ++ (slash ∷ b) → contains_byte b slash ≡ false → Shorter t
dir_below t a b e n =
    let (q, f, short) = clean_rooted_split a in
    (
      q,
      dir_split (slash ∷ t) (slash ∷ a) b (ap (λ x. slash ∷ x) e) n ∙ clean_rooted-slash a ∙ f,
      inr (omega (arith, ap length e, length-append a (slash ∷ b))),
    )

-- The directory of an absolute path is absolute, and shorter, unless it is the path.
pub dir-Shorter : (t : Text) → Shorter t
unfolding contains_byte
dir-Shorter t = elim (last_slash_cases (slash ∷ t)) [
  | inl n ↦ absurd (ground arith)
  | inr ([], (b, (e, n))) ↦ dir_top t (dir_split (slash ∷ t) [] b e n ∙ clean-slash)
  | inr (c ∷ a, (b, (e, n))) ↦ dir_below t a b (cc e) n
]
