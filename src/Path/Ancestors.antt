-- ===== src/Path/Ancestors.antt =====
-- `path.Dir` and the ancestors of plain relative paths.
use vextra.Base.{
  ℕ, ◌≡◌, refl, sym, ap, ◌∙◌, ◌⊎◌, inl, inr, true, false, [], ◌∷◌, ◌++◌, arith, ◌==◌, ==_iff,
  Bool-cases, Text, contains_byte,
}
use mathlib.Core.Bool.{false≢true}
use vextra.Path.{slash, dot, clean, is_abs, up_to_last_slash, dir}
use vextra.Path.Parts.{IsPlain, clean-slash_lem}

-- `a` is a proper ancestor of `p`.
abbrev pub Ancestor : Text → Text → Type 0
Ancestor a p = (r : Text) × (p ≡ a ++ (slash ∷ r))

-- A text has no slash, or one that is the last.
pub last_slash_cases :
    (p : Text)
    → (contains_byte p slash ≡ false)
      ⊎ ((a : Text) × ((b : Text) × ((p ≡ a ++ (slash ∷ b)) × (contains_byte b slash ≡ false))))
unfolding contains_byte
last_slash_cases [] = inl refl
last_slash_cases (c ∷ s) = elim (last_slash_cases s) [
  | inl none' ↦ elim (Bool-cases (c == slash)) [
    | inl e ↦ inr ([], (s, (cc ((==_iff c slash).0 e), none')))
    | inr ne ↦ inl (ground arith)
  ]
  | inr (a, (b, (e, n))) ↦ inr (c ∷ a, (b, (ap (◌∷◌ c) e, n)))
]

up_to_last_slash_none : (s : Text) → contains_byte s slash ≡ false → up_to_last_slash s ≡ []
unfolding contains_byte up_to_last_slash
up_to_last_slash_none [] h = refl
up_to_last_slash_none (c ∷ s) h = ground (arith, up_to_last_slash_none s)

pub up_to_last_slash_at :
    (a b : Text)
    → contains_byte b slash ≡ false
    → up_to_last_slash (a ++ (slash ∷ b)) ≡ a ++ (slash ∷ [])
unfolding up_to_last_slash
up_to_last_slash_at [] b h = rw (up_to_last_slash_none b h) refl
up_to_last_slash_at (c ∷ []) b h = rw (up_to_last_slash_at [] b h) refl
up_to_last_slash_at (c ∷ d ∷ a) b h = rw (up_to_last_slash_at (d ∷ a) b h) refl

pub dir_no_slash : (p : Text) → contains_byte p slash ≡ false → dir p ≡ dot
unfolding dir
dir_no_slash p h = ap clean (up_to_last_slash_none p h)

pub dir_at :
    (c : ℕ) (a b : Text)
    → is_abs (c ∷ a) ≡ false
    → IsPlain (c ∷ a)
    → contains_byte b slash ≡ false
    → dir ((c ∷ a) ++ (slash ∷ b)) ≡ c ∷ a
unfolding dir is_abs
dir_at c a b rel h n =
    ap clean (up_to_last_slash_at (c ∷ a) b n) ∙ clean-slash_lem c a (ground arith) h

pub contains_byte-slash : (a r : Text) → contains_byte (a ++ (slash ∷ r)) slash ≡ true
unfolding contains_byte
contains_byte-slash [] r = refl
contains_byte-slash (c ∷ a) r = ground (arith, contains_byte-slash a r)

-- Of two ancestors the one behind the last slash is the nearest.
pub Ancestor-nearest :
    (a a' b r : Text)
    → contains_byte b slash ≡ false
    → a' ++ (slash ∷ b) ≡ a ++ (slash ∷ r)
    → (a ≡ a') ⊎ Ancestor a a'
unfolding contains_byte
Ancestor-nearest [] [] b r n e = inl refl
Ancestor-nearest [] (c ∷ a') b r n e = inr (a', cc e)
Ancestor-nearest (d ∷ a) [] b r n e =
    absurd
      (false≢true (sym n ∙ ap (λ t. contains_byte t slash) (tail_eq e) ∙ contains_byte-slash a r))
  where
    tail_eq : slash ∷ b ≡ d ∷ (a ++ (slash ∷ r)) → b ≡ a ++ (slash ∷ r)
    tail_eq q = cc q
Ancestor-nearest (d ∷ a) (c ∷ a') b r n e = elim (Ancestor-nearest a a' b r n (cc e)) [
  | inl q ↦ inl (cc (e, q))
  | inr (s, q) ↦ inr (s, cc (e, q))
]
