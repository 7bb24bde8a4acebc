-- ===== src/Excludes/Inherited.antt =====
-- `Excluded` of excludes.go on a path and on what is below it.
use vextra.Base.{
  String, ◌≡◌, ap, ◌∙◌, Bool, true, Option, none, some, List, [], ◌∷◌, ◌++◌, arith, Text,
}
use vextra.Entry.{t_dir}
use vextra.Path.{split}
use vextra.Path.Parts.{split-append, split-cons}
use vextra.Path.Ancestors.{Ancestor}
use vextra.Excludes.{ExcludeSet, excluded_loop, excluded}

module _ (path_match : Text → Text → Option Bool) where
  -- The loop over a longer path decides on the elements of the shorter one as on a directory.
  excluded_loop-append :
      (es : ExcludeSet) (typ : String) (before ps : List Text) (q : Text) (qs : List Text)
      → excluded_loop path_match es t_dir before ps ≡ true
      → excluded_loop path_match es typ before (ps ++ (q ∷ qs)) ≡ true
  unfolding excluded_loop
  excluded_loop-append es typ before [] q qs h = cc
  excluded_loop-append es typ before (p ∷ []) q qs h = ground arith
  excluded_loop-append es typ before (p ∷ p' ∷ ps) q qs h =
      ground (arith, excluded_loop-append es typ (before ++ (p ∷ [])) (p' ∷ ps) q qs)

  -- Whatever lies below a path that is excluded as a directory is excluded, whatever its type.
  pub excluded-Ancestor :
      (es : Option ExcludeSet) (a p : Text) (typ : String)
      → Ancestor a p
      → excluded path_match es a t_dir ≡ true
      → excluded path_match es p typ ≡ true
  unfolding excluded
  excluded-Ancestor none a p typ anc h = cc
  excluded-Ancestor (some []) a p typ anc h = cc
  excluded-Ancestor (some (pt ∷ es)) a p typ (r, e) h =
      let (q, (qs, eq)) = split-cons r in
      ap (λ t. excluded_loop path_match (pt ∷ es) typ [] (split t)) e
      ∙ ap (excluded_loop path_match (pt ∷ es) typ [])
          (split-append a r ∙ ap (λ t. split a ++ t) eq)
      ∙ excluded_loop-append (pt ∷ es) typ [] (split a) q qs h
