-- ===== src/Build.antt =====
-- `BuildPlan` of engine.go over two file systems in one world, and `filterExcluded` on both listings.
-- `sort.SliceStable` is an insertion sort that keeps the order of equal elements.
pub mod Deletions
pub mod Deepest
pub mod Planned
pub mod Finished
pub mod Looked
use vextra.Base.{
  ℕ, ◌+◌, ◌-◌, Bool, true, false, not, Option, none, some, List, [], ◌∷◌, ◌++◌, map, str_eq, ltb,
  ◌==◌, if◌then◌else◌, length, keep, any, Text, text_eq,
}
use vextra.Base.Result.{attempt, Err, Result, ok, err, M, ◌>>=◌, ◌>>◌, pure, raise}
use vextra.Base.Dict.{Dict, lookup, insert, text_key}
use vextra.Entry.{Entry, t_file, t_dir}
use vextra.Path.{slash, dot, base, path_join}
use vextra.Excludes.{filter_excluded}
use vextra.Listing.{check_entries}
use vextra.Fs.{Fs}
use vextra.Plan.{act_mkdir, act_delete, Action, Options, Plan, classify, empty_plan, finish}

-- `errors.Is(err, fs.ErrNotExist)`
unfoldable pub is_not_exist : Err → Bool
is_not_exist Err.not_exist = true
is_not_exist (Err.remote code text) = str_eq code "ENOENT"
is_not_exist _ = false

-- A `Stat` whose failure to find the file is no error.
abbrev pub if_exists : {S : Type 0} → Result Entry → M S (Option Entry)
if_exists (ok e) = pure (some e)
if_exists (err e) = if is_not_exist e then pure none else raise e

-- `a.Rel, a.Src, a.Dst = …` and the two paths
abbrev pub place : Text → Text → Text → Entry → Option Entry → Action → Action
place rel src_path dst_path s d a = record a {
  rel = rel;
  src_path = src_path;
  dst_path = dst_path;
  src = some s;
  dst = d;
}

abbrev pub to_list : {A : Type 0} → Option A → List A
to_list none = []
to_list (some a) = a ∷ []

-- `strings.Count(path, "/")`
unfoldable pub depth : Text → ℕ
depth [] = 0
depth (c ∷ s) = (if c == slash then 1 else 0) + depth s

-- Inserts before the first entry that is not deeper.
unfoldable pub insert_deeper : Entry → List Entry → List Entry
insert_deeper e [] = e ∷ []
insert_deeper e (f ∷ fs) =
    let rest = insert_deeper e fs in
    if ltb (depth e.path) (depth f.path) then f ∷ rest else e ∷ f ∷ fs

unfoldable pub deepest_first : List Entry → List Entry
unfolding insert_deeper depth
deepest_first [] = []
deepest_first (e ∷ es) = insert_deeper e (deepest_first es)

-- `dmap`: of several entries with one path the last one counts.
unfoldable pub dst_map : List Entry → Dict Text Entry → Dict Text Entry
unfolding insert
dst_map [] m = m
dst_map (e ∷ es) m = dst_map es (insert e.path e m)

-- `seen[path]`
abbrev pub seen : List Entry → Text → Bool
seen slist p = any (λ e. text_eq e.path p) slist

module _ (src_path dst_path : Text) where
  -- The action for one entry of the source, if there is one.
  unfoldable pub entry_action : Dict Text Entry → Entry → List Action
  unfolding classify lookup path_join
  entry_action dmap s =
      let d = lookup s.path dmap in
      map (place s.path (path_join src_path s.path) (path_join dst_path s.path) s d)
        (to_list (classify s d))

  abbrev pub entry_actions : Dict Text Entry → List Entry → List Action
  entry_actions dmap [] = []
  entry_actions dmap (s ∷ ss) = entry_action dmap s ++ entry_actions dmap ss

  abbrev pub is_mkdir : Action → Bool
  is_mkdir a = elim a.kind [ act_mkdir ↦ true | _ ↦ false ]

  unfoldable pub delete_action : Entry → Action
  unfolding path_join
  delete_action e = record {
    kind = act_delete;
    rel = e.path;
    src_path = [];
    dst_path = path_join dst_path e.path;
    src = none;
    dst = some e;
    why = "sólo en destino";
    replace = false;
    delta = none;
  }

  -- The action for the root: it is made, or its metadata is brought up to date.
  unfoldable pub root_actions : Entry → Option Entry → List Action
  unfolding classify
  root_actions sroot none =
      record {
        kind = act_mkdir;
        rel = dot;
        src_path = src_path;
        dst_path = dst_path;
        src = some sroot;
        dst = none;
        why = "nuevo";
        replace = false;
        delta = none;
      }
      ∷ []
  root_actions sroot (some d) =
      map (place dot src_path dst_path sroot (some d)) (to_list (classify sroot (some d)))

  -- The plan for two checked and filtered listings, before `finish`.
  unfoldable pub plan_listings : Options → List Action → ℕ → List Entry → List Entry → Plan
  unfolding entry_action delete_action deepest_first dst_map
  plan_listings o root excluded slist dlist =
      let actions = entry_actions (dst_map dlist []) slist in
      let extra = keep (λ e. not (seen slist e.path)) dlist in
      let deletions = if o.delete then map delete_action (deepest_first extra) else [] in
      record empty_plan {
        actions =
            root ++ (keep is_mkdir actions ++ (keep (λ a. not (is_mkdir a)) actions ++ deletions));
        extra = extra;
        excluded = excluded;
      }

abbrev pub from_check : {S : Type 0} → Option (Result (Unit {0})) → M S (Unit {0})
from_check none = raise Err.other
from_check (some (ok u)) = pure tt
from_check (some (err e)) = raise e

-- The result of a `Stat` that must not fail.
abbrev pub required : {S : Type 0} → Result Entry → M S (Option Entry)
required (ok e) = pure (some e)
required (err e) = raise e

-- The plan of a single file with the destination's entry.
unfoldable pub file_plan : Text → Text → Entry → Option Entry → Plan
file_plan src_path target sroot current = finish (record empty_plan {
  actions = map (place dot src_path target sroot current) (to_list (classify sroot current));
})

module _ (path_match : Text → Text → Option Bool) {S H K : Type 0} (src : Fs S H)
    (dst : Fs S K) where
  -- The case of a single file.
  unfoldable pub plan_file : Text → Text → Entry → Option Entry → M S Plan
  plan_file src_path dst_path sroot none = pure (file_plan src_path dst_path sroot none)
  plan_file src_path dst_path sroot (some d) = do
    let inside = str_eq d.type t_dir
    let target = if inside then path_join dst_path (base src_path) else dst_path
    found ← attempt (dst.stat target false)
    current ← (if inside then if_exists found else required found)
    pure (file_plan src_path target sroot current)

  -- The listing of a destination that exists, checked.
  unfoldable pub list_dst : Text → Option Entry → M S (List Entry)
  list_dst dst_path none = pure []
  list_dst dst_path (some d) = do l ← dst.list dst_path true; from_check (check_entries l); pure l

  -- What is done with two checked listings.
  unfoldable pub dir_plan :
      Text → Text → Options → Entry → Option Entry → List Entry → List Entry → Plan
  dir_plan src_path dst_path o sroot droot slist dlist =
      let slist' = filter_excluded path_match slist o.exclude in
      finish (
        plan_listings src_path dst_path o (root_actions src_path dst_path sroot droot)
          (length slist - length slist') slist' (filter_excluded path_match dlist o.exclude))

  -- The case of a directory, from the listings on.
  unfoldable pub plan_listed : Text → Text → Options → Entry → Option Entry → M S Plan
  plan_listed src_path dst_path o sroot droot = do
    slist ← src.list src_path true
    from_check (check_entries slist)
    dlist ← list_dst dst_path droot
    pure (dir_plan src_path dst_path o sroot droot slist dlist)

  -- The case of a directory.
  unfoldable pub plan_dir : Text → Text → Options → Entry → Option Entry → M S Plan
  plan_dir src_path dst_path o sroot none = plan_listed src_path dst_path o sroot none
  plan_dir src_path dst_path o sroot (some d) =
      if not (str_eq d.type t_dir)
      then raise Err.other
      else plan_listed src_path dst_path o sroot (some d)

  -- The switch on the type of the source's root.
  unfoldable pub plan_rooted : Text → Text → Options → Entry → Option Entry → M S Plan
  plan_rooted src_path dst_path o sroot droot =
      if str_eq sroot.type t_file
      then plan_file src_path dst_path sroot droot
      else if str_eq sroot.type t_dir
      then plan_dir src_path dst_path o sroot droot
      else raise Err.other

  unfoldable pub build_plan : Text → Text → Options → M S Plan
  build_plan src_path dst_path o = do
    sroot ← src.stat src_path true
    found ← attempt (dst.stat dst_path true)
    droot ← if_exists found
    plan_rooted src_path dst_path o sroot droot
