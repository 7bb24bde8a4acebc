-- ===== src/Excludes.antt =====
-- excludes.go: patterns of paths to leave out. `path.Match` is the parameter `path_match`: `none` is
-- `path.ErrBadPattern`.
pub mod Inherited
pub mod Compiled
use vextra.Base.{
  ℕ, zero, suc, ◌+◌, ◌-◌, ◌*◌, ◌/◌, ◌%◌, ◌^◌, ◌≤◌, ◌<◌, min, String, ◌≡◌, refl, sym, ap, ◌∙◌, ◌≢◌,
  ◌↔◌, ◌⊎◌, inl, inr, Bool, true, false, not, ◌&&◌, ◌||◌, Option, none, some, List, [], ◌∷◌, ◌++◌,
  map, arith, str_eq, eq_iff, ltb, leb, ◌==◌, if◌then◌else◌, ltb→lt, lt→ltb, leb→le, le→leb, ==_iff,
  Bool-cases, Option-cases, none≢some, length, get_elem?, take, drop, replicate, keep, All, any,
  length-append, length-take, length-drop, length-replicate, take-append-drop, take_all, drop_all,
  take-length-append, drop-length-append, get_elem?-append, get_elem?-take, get_elem?-drop,
  get_elem?-replicate, get_elem?_ge, get_elem?_lt, eq_of_get_elem?, Text, codes, text_eq,
  text_eq_refl, eq_of_text_eq, text_eq_iff, has_prefix, has_prefix_append, has_prefix_split,
  contains_byte, trim_prefix, has_suffix, trim_suffix,
}
use vextra.Base.Int.{ℤ, pos, negsuc, pos_part, neg_part, sub_ℕ, ◌+ℤ◌, ◌-ℤ◌, ltb_ℤ, eqb_ℤ}
use native.Mathlib.Decide.{dec_lt}
use vextra.Base.Result.{Err, Result, ok, err, bind, M, ◌>>=◌, ◌>>◌, pure, raise}
use vextra.Entry.{Entry, t_dir}
use vextra.Path.{slash, split, join}

pub record Pattern : Type 0 where
  pub raw : Text
  pub anchored : Bool
  pub dir_only : Bool
  pub body : Text

abbrev pub ExcludeSet : Type 0
ExcludeSet = List Pattern

-- unicode.IsSpace, on ASCII.
is_space : ℕ → Bool
is_space c = c == 32 || (leb 9 c && leb c 13)

trim_left : Text → Text
trim_left [] = []
trim_left (c ∷ s) = let rest = trim_left s in if is_space c then rest else c ∷ s

trim_right : Text → Text
trim_right [] = []
trim_right (c ∷ s) = elim (trim_right s) [
  | [] ↦ if is_space c then [] else c ∷ []
  | d ∷ r ↦ c ∷ d ∷ r
]

-- strings.TrimSpace
unfoldable pub trim_space : Text → Text
unfolding trim_left trim_right is_space
trim_space s = trim_right (trim_left s)

-- `es.empty()`: nil, or no patterns.
abbrev pub is_empty : Option ExcludeSet → Bool
is_empty none = true
is_empty (some []) = true
is_empty (some (p ∷ ps)) = false

module _ (path_match : Text → Text → Option Bool) where
  -- One pattern of `compileExcludes`, for a line that is neither empty nor a comment.
  unfoldable pub compile_one : Text → Result Pattern
  compile_one r =
      let stem = trim_suffix r slash in
      let body = trim_prefix stem slash in
      if text_eq body [] then err Err.other else elim (path_match body (codes "x")) [
        | none ↦ err Err.other
        | some _ ↦ ok (record {
          raw = r;
          anchored = contains_byte stem slash;
          dir_only = has_suffix r slash;
          body = body;
        })
      ]

  unfoldable pub compile_excludes : List Text → Result ExcludeSet
  compile_excludes [] = ok []
  compile_excludes (line ∷ lines) =
      let r = trim_space line in
      let rest = compile_excludes lines in
      if text_eq r [] || has_prefix r (codes "#")
      then rest
      else bind (compile_one r) (λ p. bind rest (λ ps. ok (p ∷ ps)))

  -- `pattern.match`; a pattern that does not parse matches nothing.
  unfoldable pub matches : Pattern → Text → Text → Bool → Bool
  matches pt full base dir_like =
      if pt.dir_only && not dir_like
      then false
      else elim (path_match pt.body (if pt.anchored then full else base)) [
        | none ↦ false
        | some m ↦ m
      ]

  -- The loop of `Excluded` over the elements of the path, from the element behind `before` on.
  excluded_loop : ExcludeSet → String → List Text → List Text → Bool
  unfolding matches
  excluded_loop es typ before [] = false
  excluded_loop es typ before (p ∷ ps) =
      let full = join (before ++ (p ∷ [])) in
      let dir_like : Bool = elim ps [ [] ↦ str_eq typ t_dir | _ ∷ _ ↦ true ] in
      let rest = excluded_loop es typ (before ++ (p ∷ [])) ps in
      if any (λ pt. matches pt full p dir_like) es then true else rest

  unfoldable pub excluded : Option ExcludeSet → Text → String → Bool
  unfolding excluded_loop
  excluded none rel typ = false
  excluded (some es) rel typ =
      if is_empty (some es) then false else excluded_loop es typ [] (split rel)

  unfoldable pub filter_excluded : List Entry → Option ExcludeSet → List Entry
  unfolding excluded
  filter_excluded list es =
      if is_empty es then list else keep (λ e. not (excluded es e.path e.type)) list
