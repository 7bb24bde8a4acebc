-- ===== src/Local/Ended.antt =====
-- The length of the loop of `checkEscape`.
use vextra.Base.{
  ℕ, zero, suc, ◌<◌, ◌≡◌, sym, ◌∙◌, ◌≢◌, inl, inr, false, ◌∷◌, arith, Bool-cases, length, Text,
  text_eq, text_eq_iff,
}
use vextra.Base.Result.{Result, ok, err}
use mathlib.Core.Bool.{false≢true}
use vextra.Path.{slash, dir}
use vextra.Path.Shorter.{dir-Shorter}
use vextra.Os.{FileInfo, Os}
use vextra.Local.{Existing, no_fuel, look, deepest}

module _ {S D : Type 0} (os : Os S D) where
  deepest_at :
      (t : Text) (x : Result FileInfo × S) (rest : Existing × S)
      → (text_eq (dir (slash ∷ t)) (slash ∷ t) ≡ false → rest.0 ≢ no_fuel)
      → (look os (slash ∷ t) rest x).0 ≢ no_fuel
  deepest_at t (ok fi, s) rest h = λ q. cc q
  deepest_at t (err e, s) rest h = elim (Bool-cases (text_eq (dir (slash ∷ t)) (slash ∷ t))) [
    | inl q ↦ rw q (λ r. cc r)
    | inr q ↦ rw q (h q)
  ]

  -- From an absolute path the search for an ancestor that exists ends within as many rounds as the
  -- path has bytes, whatever the operating system answers.
  pub deepest_ends :
      (f : ℕ) (t : Text) (s : S) → length t < f → (deepest os f (slash ∷ t) s).0 ≢ no_fuel
  unfolding deepest
  deepest_ends zero t s h = absurd (omega arith)
  deepest_ends (suc f) t s h =
      deepest_at t (os.lstat (slash ∷ t) s)
        (deepest os f (dir (slash ∷ t)) (os.lstat (slash ∷ t) s).1)
        (λ other.
          let (q, e, short) = dir-Shorter t in
          elim short [
            | inl same ↦
                absurd (false≢true (sym other ∙ (text_eq_iff (dir (slash ∷ t)) (slash ∷ t)).1 same))
            | inr lt ↦ rw e (deepest_ends f q (os.lstat (slash ∷ t) s).1 (omega arith))
          ])
