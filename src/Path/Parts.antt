-- ===== src/Path/Parts.antt =====
-- Splitting and joining at slashes, and what `path.Clean` leaves of plain elements.
use vextra.Base.{
  ℕ, ◌≡◌, refl, sym, ap, ◌∙◌, ◌≢◌, inl, inr, Bool, false, List, [], ◌∷◌, ◌++◌, arith, ◌==◌, ==_iff,
  Bool-cases, All, Text, text_eq,
}
use mathlib.Core.List.{reverse, reverse-cons, reverse-reverse, append-nil, append_assoc}
use vextra.Path.{
  slash, split, join, clean, clean_loop, clean_step, is_abs, add_to_first, bad_part, or_dot,
  clean_out,
}

pub split-cons : (s : Text) → (p : Text) × ((ps : List Text) × (split s ≡ p ∷ ps))
unfolding split
split-cons [] = ([], ([], refl))
split-cons (c ∷ s) =
    let (p, (ps, e)) = split-cons s in
    elim (Bool-cases (c == slash)) [
      | inl h ↦ ([], (split s, rw h))
      | inr h ↦ (c ∷ p, (ps, rw (h, e)))
    ]

join-slash : (p : Text) (ps : List Text) → join ([] ∷ p ∷ ps) ≡ slash ∷ join (p ∷ ps)
unfolding join
join-slash p ps = refl

join-add_to_first :
    (c : ℕ) (p : Text) (ps : List Text) → join (add_to_first c (p ∷ ps)) ≡ c ∷ join (p ∷ ps)
unfolding join
join-add_to_first c p [] = refl
join-add_to_first c p (q ∷ ps) = refl

-- Joining what a text was split into gives the text.
pub join-split : (s : Text) → join (split s) ≡ s
unfolding split
join-split [] = unfold join in refl
join-split (c ∷ s) =
    let (p, (ps, e)) = split-cons s in
    let ih : join (p ∷ ps) ≡ s = ap join (sym e) ∙ join-split s in
    elim (Bool-cases (c == slash)) [
      | inl h ↦ rw (h, e) (cc (join-slash p ps, ih, (==_iff c slash).0 h))
      | inr h ↦ rw (h, e) (cc (join-add_to_first c p ps, ih))
    ]

pub split-append : (a b : Text) → split (a ++ (slash ∷ b)) ≡ split a ++ split b
unfolding split
split-append [] b = refl
split-append (c ∷ a) b =
    let (p, (ps, e)) = split-cons a in
    elim (Bool-cases (c == slash)) [
      | inl h ↦ rw (h, split-append a b)
      | inr h ↦ rw (h, split-append a b, e)
    ]

-- No element of the text is empty, "." or "..".
abbrev pub IsPlain : Text → Type 0
IsPlain a = All (λ p. bad_part p ≡ false) (split a)

pub All-append_left {ℓ κ} :
    {A : Type ℓ} (P : A → Type κ) (xs ys : List A) → All P (xs ++ ys) → All P xs
All-append_left P [] ys h = tt
All-append_left P (x ∷ xs) ys h = (h.0, All-append_left P xs ys h.1)

pub IsPlain-left : (a b : Text) → IsPlain (a ++ (slash ∷ b)) → IsPlain a
IsPlain-left a b h =
    All-append_left (λ p. bad_part p ≡ false) (split a) (split b) (rw split-append at h)

reverse-cons_append :
    (p : Text) (ps stack : List Text) → reverse ps ++ (p ∷ stack) ≡ reverse (p ∷ ps) ++ stack
reverse-cons_append p ps stack =
    sym (append_assoc (reverse ps) (p ∷ []) stack) ∙ ap (λ t. t ++ stack) (sym (reverse-cons p ps))

-- `path.Clean` keeps plain elements.
clean_loop-plain :
    (rooted : Bool) (stack ps qs : List Text)
    → All (λ p. bad_part p ≡ false) ps
    → clean_loop rooted stack (ps ++ qs) ≡ clean_loop rooted (reverse ps ++ stack) qs
unfolding clean_loop bad_part
clean_loop-plain rooted stack [] qs h = refl
clean_loop-plain rooted stack (p ∷ ps) qs h =
    let step : clean_step rooted stack p ≡ p ∷ stack = ground arith in
    ap (λ t. clean_loop rooted t (ps ++ qs)) step
    ∙ clean_loop-plain rooted (p ∷ stack) ps qs h.1
    ∙ ap (λ t. clean_loop rooted t qs) (reverse-cons_append p ps stack)

pub IsPlain-ne_nil : (a : Text) → IsPlain a → a ≢ []
unfolding split bad_part text_eq
IsPlain-ne_nil [] h e = cc (h.0)
IsPlain-ne_nil (c ∷ a) h e = cc

pub clean_relative :
    (p : Text) → is_abs p ≡ false → clean p ≡ or_dot (join (clean_loop false [] (split p)))
unfolding clean
clean_relative p rel = ap (λ b. clean_out b (clean_loop b [] (split p))) rel

clean_loop-IsPlain :
    (ps : List Text) → All (λ p. bad_part p ≡ false) ps → clean_loop false [] (ps ++ ([] ∷ [])) ≡ ps
unfolding clean_loop text_eq
clean_loop-IsPlain ps h =
    clean_loop-plain false [] ps ([] ∷ []) h
    ∙ ap reverse (append-nil (reverse ps))
    ∙ reverse-reverse ps

split_nil : split [] ≡ [] ∷ []
unfolding split
split_nil = refl

-- A plain relative path with a slash behind it is cleaned to itself.
pub clean-slash_lem :
    (c : ℕ) (a : Text)
    → is_abs ((c ∷ a) ++ (slash ∷ [])) ≡ false
    → IsPlain (c ∷ a)
    → clean ((c ∷ a) ++ (slash ∷ [])) ≡ c ∷ a
clean-slash_lem c a rel h =
    clean_relative ((c ∷ a) ++ (slash ∷ [])) rel
    ∙ ap (λ ps. or_dot (join (clean_loop false [] ps))) (split-append (c ∷ a) [])
    ∙ ap (λ ps. or_dot (join ps)) (split-nil_lem c a h)
    ∙ ap or_dot (join-split (c ∷ a))
  where
    split-nil_lem :
        (c : ℕ) (a : Text)
        → IsPlain (c ∷ a)
        → clean_loop false [] (split (c ∷ a) ++ split []) ≡ split (c ∷ a)
    split-nil_lem c a h =
        ap (λ ps. clean_loop false [] (split (c ∷ a) ++ ps)) split_nil
        ∙ clean_loop-IsPlain (split (c ∷ a)) h
