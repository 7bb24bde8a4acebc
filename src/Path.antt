-- ===== src/Path.antt =====
-- The parts of Go's `strings` and `path` that the program uses: `strings.Split` and `strings.Join`
-- at a slash, `path.Clean`, `path.Dir`, `path.Base`, `path.Join`, `path.IsAbs`.
pub mod Parts
pub mod Ancestors
pub mod Shorter
pub mod Rooted
use vextra.Base.{
  ℕ, zero, suc, ◌+◌, ◌-◌, ◌*◌, ◌/◌, ◌%◌, ◌^◌, ◌≤◌, ◌<◌, min, String, ◌≡◌, refl, sym, ap, ◌∙◌, ◌≢◌,
  ◌↔◌, ◌⊎◌, inl, inr, Bool, true, false, not, ◌&&◌, ◌||◌, Option, none, some, List, [], ◌∷◌, ◌++◌,
  map, arith, str_eq, eq_iff, ltb, leb, ◌==◌, if◌then◌else◌, ltb→lt, lt→ltb, leb→le, le→leb, ==_iff,
  Bool-cases, Option-cases, none≢some, length, get_elem?, take, drop, replicate, keep, All, any,
  length-append, length-take, length-drop, length-replicate, take-append-drop, take_all, drop_all,
  take-length-append, drop-length-append, get_elem?-append, get_elem?-take, get_elem?-drop,
  get_elem?-replicate, get_elem?_ge, get_elem?_lt, eq_of_get_elem?, Text, codes, text_eq,
  text_eq_refl, eq_of_text_eq, text_eq_iff, has_prefix, has_prefix_append, has_prefix_split,
  contains_byte, trim_prefix, has_suffix, trim_suffix,
}
use vextra.Base.Int.{ℤ, pos, negsuc, pos_part, neg_part, sub_ℕ, ◌+ℤ◌, ◌-ℤ◌, ltb_ℤ, eqb_ℤ}
use native.Mathlib.Decide.{dec_lt}
use vextra.Base.Result.{Err, Result, ok, err, bind, M, ◌>>=◌, ◌>>◌, pure, raise}
use mathlib.Core.List.{reverse}

abbrev pub slash : ℕ
slash = b'/'

abbrev pub dot : Text
dot = b'.' ∷ []

abbrev pub dotdot : Text
dotdot = b'.' ∷ b'.' ∷ []

abbrev add_to_first : ℕ → List Text → List Text
add_to_first c [] = (c ∷ []) ∷ []
add_to_first c (p ∷ ps) = (c ∷ p) ∷ ps

-- strings.Split(s, "/")
unfoldable pub split : Text → List Text
split [] = [] ∷ []
split (c ∷ s) = let rest = split s in if c == slash then [] ∷ rest else add_to_first c rest

-- strings.Join(parts, "/")
unfoldable pub join : List Text → Text
join [] = []
join (p ∷ []) = p
join (p ∷ q ∷ ps) = p ++ (slash ∷ join (q ∷ ps))

-- path.IsAbs(p)
unfoldable pub is_abs : Text → Bool
unfolding has_prefix
is_abs p = has_prefix p (slash ∷ [])

-- A ".." in `path.Clean`: it takes the last element away, unless there is none or it is a "..".
back : Bool → List Text → List Text
back rooted [] = if rooted then [] else dotdot ∷ []
back rooted (t ∷ ts) = if text_eq t dotdot then dotdot ∷ t ∷ ts else ts

-- One element in `path.Clean`, over the elements kept so far, the last one first.
clean_step : Bool → List Text → Text → List Text
unfolding back
clean_step rooted stack p =
    if text_eq p [] || text_eq p dot
    then stack
    else if text_eq p dotdot
    then back rooted stack
    else p ∷ stack

pub clean_loop : Bool → List Text → List Text → List Text
unfolding clean_step
clean_loop rooted stack [] = reverse stack
clean_loop rooted stack (p ∷ ps) = clean_loop rooted (clean_step rooted stack p) ps

abbrev or_dot : Text → Text
or_dot [] = dot
or_dot (c ∷ s) = c ∷ s

abbrev clean_out : Bool → List Text → Text
clean_out rooted parts = if rooted then slash ∷ join parts else or_dot (join parts)

-- path.Clean(p)
unfoldable pub clean : Text → Text
unfolding clean_loop split join is_abs text_eq
clean p = clean_out (is_abs p) (clean_loop (is_abs p) [] (split p))

-- An element that `path.Clean` does not keep as it is.
unfoldable pub bad_part : Text → Bool
bad_part p = text_eq p [] || text_eq p dot || text_eq p dotdot

-- The text up to and with the last slash.
unfoldable pub up_to_last_slash : Text → Text
up_to_last_slash [] = []
up_to_last_slash (c ∷ s) = elim (up_to_last_slash s) [
  | [] ↦ if c == slash then c ∷ [] else []
  | d ∷ r ↦ c ∷ d ∷ r
]

-- path.Dir(p)
unfoldable pub dir : Text → Text
unfolding clean up_to_last_slash
dir p = clean (up_to_last_slash p)

-- path.Join(a, b): empty elements are left out.
unfoldable pub path_join : Text → Text → Text
unfolding clean
path_join [] [] = []
path_join [] (c ∷ b) = clean (c ∷ b)
path_join (c ∷ a) [] = clean (c ∷ a)
path_join (c ∷ a) (d ∷ b) = clean ((c ∷ a) ++ (slash ∷ d ∷ b))

-- Without its trailing slashes.
strip_slashes : Text → Text
strip_slashes [] = []
strip_slashes (c ∷ s) = elim (strip_slashes s) [
  | [] ↦ if c == slash then [] else c ∷ []
  | d ∷ r ↦ c ∷ d ∷ r
]

-- The text behind the last slash.
unfoldable pub after_last_slash : Text → Text
after_last_slash [] = []
after_last_slash (c ∷ s) = if contains_byte (c ∷ s) slash then after_last_slash s else c ∷ s

-- path.Base(p)
unfoldable pub base : Text → Text
unfolding strip_slashes after_last_slash contains_byte
base [] = dot
base (c ∷ p) =
    let name = after_last_slash (strip_slashes (c ∷ p)) in
    elim name [ [] ↦ slash ∷ [] | d ∷ r ↦ d ∷ r ]

clean_examples :
    (clean (codes "a//b/../c/./") ≡ codes "a/c")
    × (clean (codes "/../a/..") ≡ codes "/")
    × (clean (codes "../../a/../b") ≡ codes "../../b")
    × (dir (codes "a/b/c") ≡ codes "a/b")
    × (dir (codes "a") ≡ codes ".")
    × (base (codes "/a/b//") ≡ codes "b")
    × (path_join (codes "a/") (codes "/../b") ≡ codes "b")
unfolding clean dir base path_join
clean_examples = (refl, refl, refl, refl, refl, refl, refl)
