-- ===== src/Excludes/Compiled.antt =====
-- What `compileExcludes` guarantees of the patterns it returns.
use vextra.Base.{
  ℕ, ◌≡◌, refl, ◌≢◌, inl, inr, Bool, false, ◌||◌, Option, none, List, [], ◌∷◌, arith, Bool-cases,
  Option-cases, All, Text, codes, text_eq, text_eq_iff, has_prefix, contains_byte, trim_prefix,
  trim_suffix,
}
use vextra.Base.Result.{Result, ok, err, bind}
use vextra.Path.{slash}
use vextra.Excludes.{Pattern, ExcludeSet, trim_space, compile_one, compile_excludes}

contains_byte-trim_prefix :
    (s : Text) (c : ℕ) → contains_byte s c ≡ false → contains_byte (trim_prefix s c) c ≡ false
unfolding contains_byte trim_prefix
contains_byte-trim_prefix [] c h = refl
contains_byte-trim_prefix (a ∷ s) c h = ground arith

module _ (path_match : Text → Text → Option Bool) where
  -- A compiled pattern has a body, the body parses, and the body of an unanchored pattern has no
  -- slash, so that it is compared with single names.
  pub record IsCompiled (p : Pattern) : Type 0 where
    pub has_body : p.body ≢ []
    pub parses : path_match p.body (codes "x") ≢ none
    pub one_name : p.anchored ≡ false → contains_byte p.body slash ≡ false

  compile_one-IsCompiled : (r : Text) (p : Pattern) → compile_one path_match r ≡ ok p → IsCompiled p
  unfolding compile_one
  compile_one-IsCompiled r p h =
      let stem = trim_suffix r slash in
      let body = trim_prefix stem slash in
      elim (Bool-cases (text_eq body [])) [
        | inl e ↦ ground arith
        | inr ne ↦ elim (Option-cases (path_match body (codes "x"))) [
          | inl e ↦ ground arith
          | inr (m, e) ↦ ground (arith, text_eq_iff body [], contains_byte-trim_prefix stem slash)
        ]
      ]

  -- A pattern in front of patterns that compile.
  IsCompiled-cons :
      (r : Text) (c : Result Pattern) (rest : Result ExcludeSet) (es : ExcludeSet)
      → compile_one path_match r ≡ c
      → ((ps : ExcludeSet) → rest ≡ ok ps → All IsCompiled ps)
      → bind c (λ p. bind rest (λ ps. ok (p ∷ ps))) ≡ ok es
      → All IsCompiled es
  IsCompiled-cons r (err e) rest es qc ih q = cc
  IsCompiled-cons r (ok p) (err e) es qc ih q = cc
  IsCompiled-cons r (ok p) (ok ps) [] qc ih q = cc
  IsCompiled-cons r (ok p) (ok ps) (p' ∷ ps') qc ih q =
      (compile_one-IsCompiled r p' (cc (qc, q)), ih ps' (cc q))

  -- If the patterns compile, each of them has a body, its body is a pattern that parses, and an
  -- unanchored one has no slash in its body.
  pub compile_excludes-IsCompiled :
      (lines : List Text) (es : ExcludeSet)
      → compile_excludes path_match lines ≡ ok es
      → All IsCompiled es
  unfolding compile_excludes
  compile_excludes-IsCompiled [] [] h = tt
  compile_excludes-IsCompiled [] (p ∷ ps) h = cc
  compile_excludes-IsCompiled (line ∷ lines) es h =
      let r = trim_space line in
      elim (Bool-cases (text_eq r [] || has_prefix r (codes "#"))) [
        | inl skip ↦ compile_excludes-IsCompiled lines es (rw skip at h)
        | inr used ↦
            IsCompiled-cons r (compile_one path_match r) (compile_excludes path_match lines) es refl
              (compile_excludes-IsCompiled lines) (rw used at h)
      ]
