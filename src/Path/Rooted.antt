-- ===== src/Path/Rooted.antt =====
-- The elements of the paths that `path.Clean` gives.
use vextra.Base.{
  ℕ, ◌≡◌, refl, sym, ap, ◌∙◌, inl, inr, true, false, ◌||◌, List, [], ◌∷◌, ◌++◌, arith, ◌==◌,
  Bool-cases, All, Text, text_eq, has_prefix, contains_byte,
}
use mathlib.Core.List.{reverse, reverse-cons}
use mathlib.Core.Bool.{false≢true}
use vextra.Path.Parts.{clean_relative}
use vextra.Path.{
  or_dot, clean_out, slash, dot, dotdot, split, join, clean, clean_loop, clean_step, back, is_abs,
  add_to_first, bad_part,
}

-- An element that names something in its directory.
abbrev pub IsName : Text → Type 0
IsName p = (bad_part p ≡ false) × (contains_byte p slash ≡ false)

All-append {ℓ κ} :
    {A : Type ℓ} (P : A → Type κ) (xs ys : List A) → All P xs → All P ys → All P (xs ++ ys)
All-append P [] ys h k = k
All-append P (x ∷ xs) ys h k = (h.0, All-append P xs ys h.1 k)

All-reverse {ℓ κ} : {A : Type ℓ} (P : A → Type κ) (xs : List A) → All P xs → All P (reverse xs)
All-reverse P [] h = tt
All-reverse P (x ∷ xs) h =
    rw (reverse-cons x xs) (All-append P (reverse xs) (x ∷ []) (All-reverse P xs h.1) (h.0, tt))

-- No element of a split text has a slash.
abbrev Slashless : Text → Type 0
Slashless p = contains_byte p slash ≡ false

add_to_first-Slashless :
    (c : ℕ) (ps : List Text)
    → (c == slash) ≡ false
    → All Slashless ps
    → All Slashless (add_to_first c ps)
unfolding contains_byte
add_to_first-Slashless c [] n h = (rw n refl, tt)
add_to_first-Slashless c (p ∷ ps) n h = (rw n h.0, h.1)

split-Slashless : (s : Text) → All Slashless (split s)
unfolding split contains_byte
split-Slashless [] = (refl, tt)
split-Slashless (c ∷ s) = elim (Bool-cases (c == slash)) [
  | inl e ↦ rw e (refl, split-Slashless s)
  | inr n ↦ rw n (add_to_first-Slashless c (split s) n (split-Slashless s))
]

back-IsName : (stack : List Text) → All IsName stack → All IsName (back true stack)
unfolding back bad_part text_eq
back-IsName [] h = tt
back-IsName (t ∷ ts) h = elim (Bool-cases (text_eq t dotdot)) [
  | inl e ↦ absurd (ground arith)
  | inr n ↦ rw n h.1
]

clean_step-IsName :
    (stack : List Text) (p : Text)
    → Slashless p
    → All IsName stack
    → All IsName (clean_step true stack p)
unfolding clean_step bad_part
clean_step-IsName stack p n h = elim (Bool-cases (text_eq p [] || text_eq p dot)) [
  | inl e ↦ rw e h
  | inr e ↦ elim (Bool-cases (text_eq p dotdot)) [
    | inl q ↦ rw (e, q) (back-IsName stack h)
    | inr q ↦ rw (e, q) ((ground arith, n), h)
  ]
]

clean_loop-IsName :
    (stack ps : List Text)
    → All Slashless ps
    → All IsName stack
    → All IsName (clean_loop true stack ps)
unfolding clean_loop
clean_loop-IsName stack [] n h = All-reverse IsName stack h
clean_loop-IsName stack (p ∷ ps) n h =
    clean_loop-IsName (clean_step true stack p) ps n.1 (clean_step-IsName stack p n.0 h)

-- The elements of a path that `path.Clean` gave, behind its first slash.
pub record Cleaned (p : Text) : Type 0 where
  pub names : List Text
  pub joined : p ≡ slash ∷ join names
  pub named : All IsName names

pub rooted-Cleaned : (s : Text) → is_abs s ≡ true → Cleaned (clean s)
unfolding clean
rooted-Cleaned s h = record {
  names = clean_loop true [] (split s);
  joined = ap (λ b. clean_out b (clean_loop b [] (split s))) h;
  named = clean_loop-IsName [] (split s) (split-Slashless s) tt;
}

-- An element that is kept, in a path that need not be absolute.
abbrev Solid : Text → Type 0
Solid p = (text_eq p [] ≡ false) × Slashless p

back-Solid : (stack : List Text) → All Solid stack → All Solid (back false stack)
unfolding back text_eq contains_byte
back-Solid [] h = ((refl, refl), tt)
back-Solid (t ∷ ts) h = elim (Bool-cases (text_eq t dotdot)) [
  | inl e ↦ rw e ((refl, refl), h)
  | inr n ↦ rw n h.1
]

clean_step-Solid :
    (stack : List Text) (p : Text)
    → Slashless p
    → All Solid stack
    → All Solid (clean_step false stack p)
unfolding clean_step
clean_step-Solid stack p n h = elim (Bool-cases (text_eq p [] || text_eq p dot)) [
  | inl e ↦ rw e h
  | inr e ↦ elim (Bool-cases (text_eq p dotdot)) [
    | inl q ↦ rw (e, q) (back-Solid stack h)
    | inr q ↦ rw (e, q) ((ground arith, n), h)
  ]
]

clean_loop-Solid :
    (stack ps : List Text)
    → All Slashless ps
    → All Solid stack
    → All Solid (clean_loop false stack ps)
unfolding clean_loop
clean_loop-Solid stack [] n h = All-reverse Solid stack h
clean_loop-Solid stack (p ∷ ps) n h =
    clean_loop-Solid (clean_step false stack p) ps n.1 (clean_step-Solid stack p n.0 h)

join-Solid : (ps : List Text) → All Solid ps → is_abs (or_dot (join ps)) ≡ false
unfolding join is_abs text_eq contains_byte has_prefix
join-Solid [] h = refl
join-Solid ([] ∷ ps) h = absurd (cc (h.0.0))
join-Solid ((c ∷ p) ∷ []) h = ground (arith, h.0.1)
join-Solid ((c ∷ p) ∷ q ∷ ps) h = ground (arith, h.0.1)

relative : (s : Text) → is_abs s ≡ false → is_abs (clean s) ≡ false
relative s h =
    ap is_abs (clean_relative s h)
    ∙ join-Solid (clean_loop false [] (split s))
        (clean_loop-Solid [] (split s) (split-Slashless s) tt)

pub clean-Cleaned : (s : Text) → is_abs (clean s) ≡ true → Cleaned (clean s)
clean-Cleaned s h = elim (Bool-cases (is_abs s)) [
  | inl e ↦ rooted-Cleaned s e
  | inr n ↦ absurd (false≢true (sym (relative s n) ∙ h))
]
