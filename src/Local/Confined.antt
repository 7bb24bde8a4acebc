-- ===== src/Local/Confined.antt =====
-- What `resolve` of localfs.go lets through.
use vextra.Base.{
  ◌≡◌, ◌∙◌, ◌≢◌, ◌⊎◌, inl, inr, Bool, true, false, [], ◌∷◌, ◌++◌, arith, if◌then◌else◌, Bool-cases,
  Text, text_eq, eq_of_text_eq, has_prefix_split,
}
use vextra.Base.Result.{ok, ◌>>=◌, pure, >>=-ok}
use mathlib.Core.List.{append_assoc}
use vextra.Path.{slash, dir, is_abs}
use vextra.Path.Rooted.{Cleaned, clean-Cleaned}
use vextra.Os.{Os}
use vextra.Local.{LocalFs, within, check_escape, normalize, confine, resolve}

-- The root, or a path below it.
abbrev pub Below : Text → Text → Type 0
Below root p = (p ≡ root) ⊎ ((r : Text) × (p ≡ root ++ (slash ∷ r)))

within-Below : (root p : Text) → within root p ≡ true → Below root p
unfolding within
within-Below root p h = elim (Bool-cases (text_eq p root)) [
  | inl e ↦ inl (eq_of_text_eq p root e)
  | inr n ↦
      let (r, e) = has_prefix_split p (root ++ (slash ∷ [])) (ground arith) in
      inr (r, e ∙ append_assoc root (slash ∷ []) r)
]

module _ {S D : Type 0} (os : Os S D) (l : LocalFs) where
  -- What a path that passes satisfies.
  abbrev Passed : Text → Text → Type 0
  Passed p q = (q ≡ p) × (is_abs p ≡ true) × (within l.root p ≡ true)

  last_step :
      (b : Bool) (p q : Text) (s s' : S)
      → (if b then pure p else check_escape os l (dir p) >>= λ u. pure p) s ≡ (ok q, s')
      → q ≡ p
  last_step true p q s s' h = cc h
  last_step false p q s s' h =
      let x = >>=-ok (check_escape os l (dir p)) (λ u. pure p) s q s' h in cc (x.second)

  confine-Passed :
      (p q : Text) (s s' : S) → l.root ≢ [] → confine os l p s ≡ (ok q, s') → Passed p q
  unfolding confine
  confine-Passed p q s s' ne h = elim (Bool-cases (text_eq l.root [])) [
    | inl e ↦ absurd (ne (eq_of_text_eq l.root [] e))
    | inr n ↦ elim (Bool-cases (is_abs p)) [
      | inr na ↦ absurd (cc (rw (n, na) at h))
      | inl a ↦ elim (Bool-cases (within l.root p)) [
        | inr nw ↦ absurd (cc (rw (n, a, nw) at h))
        | inl w ↦ (last_step (text_eq p l.root) p q s s' (rw (n, a, w) at h), a, w)
      ]
    ]
  ]

  -- With a root, a path that `resolve` lets through is the root or lies below it, and it has only
  -- names between its slashes: none of them is empty, "." or "..".
  pub resolve-Below :
      (p q : Text) (s s' : S)
      → l.root ≢ []
      → resolve os l p s ≡ (ok q, s')
      → Below l.root q × Cleaned q
  unfolding normalize
  resolve-Below p q s s' ne h =
      let (e, abs, w) = confine-Passed (normalize l p) q s s' ne h in
      rw e (within-Below l.root (normalize l p) w, clean-Cleaned _ abs)
