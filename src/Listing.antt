-- ===== src/Listing.antt =====
-- The checks on a listing that may come from an untrusted server: `validRel` and `checkEntries` of
-- engine.go.
pub mod Checked
pub mod Accepted
use vextra.Base.{
  ℕ, zero, suc, ◌+◌, ◌-◌, ◌*◌, ◌/◌, ◌%◌, ◌^◌, ◌≤◌, ◌<◌, min, String, ◌≡◌, refl, sym, ap, ◌∙◌, ◌≢◌,
  ◌↔◌, ◌⊎◌, inl, inr, Bool, true, false, not, ◌&&◌, ◌||◌, Option, none, some, List, [], ◌∷◌, ◌++◌,
  map, arith, str_eq, eq_iff, ltb, leb, ◌==◌, if◌then◌else◌, ltb→lt, lt→ltb, leb→le, le→leb, ==_iff,
  Bool-cases, Option-cases, none≢some, length, get_elem?, take, drop, replicate, keep, All, any,
  length-append, length-take, length-drop, length-replicate, take-append-drop, take_all, drop_all,
  take-length-append, drop-length-append, get_elem?-append, get_elem?-take, get_elem?-drop,
  get_elem?-replicate, get_elem?_ge, get_elem?_lt, eq_of_get_elem?, Text, codes, text_eq,
  text_eq_refl, eq_of_text_eq, text_eq_iff, has_prefix, has_prefix_append, has_prefix_split,
  contains_byte, trim_prefix, has_suffix, trim_suffix,
}
use vextra.Base.Int.{ℤ, pos, negsuc, pos_part, neg_part, sub_ℕ, ◌+ℤ◌, ◌-ℤ◌, ltb_ℤ, eqb_ℤ}
use native.Mathlib.Decide.{dec_lt}
use vextra.Base.Result.{Err, Result, ok, err, bind, M, ◌>>=◌, ◌>>◌, pure, raise}
use vextra.Base.Dict.{Dict, lookup, insert, text_key}
use vextra.Entry.{Entry, t_link}
use vextra.Path.{slash, dot, split, dir, bad_part, is_abs}

unfoldable pub valid_rel : Text → Bool
unfolding bad_part
valid_rel rel =
    if text_eq rel [] || text_eq rel dot || has_prefix rel (slash ∷ []) || contains_byte rel 0
    then false
    else not (any bad_part (split rel))

-- `links[p]`, where a missing path reads as false.
unfoldable pub listed : Dict Text Bool → Text → Bool
unfolding lookup
listed links p = elim (lookup p links) [ none ↦ false | some b ↦ b ]

-- The first loop: every path is valid; collects the symlinks.
collect_links : List Entry → Dict Text Bool → Result (Dict Text Bool)
unfolding valid_rel insert
collect_links [] links = ok links
collect_links (e ∷ es) links =
    if valid_rel e.path
    then collect_links es (if str_eq e.type t_link then insert e.path true links else links)
    else err Err.other

-- `for p := path.Dir(p); p != "."; p = path.Dir(p)`, on fuel, from its current `p` on: is one of
-- the paths a symlink? `none` means that the fuel ran out.
unfoldable pub below_link : ℕ → Dict Text Bool → Text → Option Bool
unfolding listed dir
below_link zero links p = none
below_link (suc f) links p =
    let more = below_link f links (dir p) in
    if text_eq p dot then some false else if listed links p then some true else more

-- The second loop. An entry's path has more bytes than ancestors.
check_ancestors : List Entry → Dict Text Bool → Option (Result (Unit {0}))
unfolding below_link
check_ancestors [] links = some (ok tt)
check_ancestors (e ∷ es) links =
    let rest = check_ancestors es links in
    elim (below_link (length e.path + 1) links (dir e.path)) [
      | none ↦ none
      | some true ↦ some (err Err.other)
      | some false ↦ rest
    ]

unfoldable pub check_entries : List Entry → Option (Result (Unit {0}))
unfolding collect_links check_ancestors
check_entries list = elim (collect_links list []) [
  | err e ↦ some (err e)
  | ok links ↦ check_ancestors list links
]
