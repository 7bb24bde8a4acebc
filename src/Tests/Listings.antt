-- ===== src/Tests/Listings.antt =====
-- Listings, exclusions and command lines at concrete data.
use mathlib.Core.List.{Perm}
use vextra.Base.{
  String, ◌≡◌, refl, ◌⊎◌, Bool, true, false, Option, some, List, [], ◌∷◌, All, Text, codes, text_eq,
}
use vextra.Base.Int.{pos}
use vextra.Base.Result.{Err, ok, err}
use vextra.Entry.{Entry, t_file, t_dir, t_link}
use vextra.Listing.{check_entries}
use vextra.Listing.Accepted.{IsSafe, check_entries-IsSafe}
use vextra.Excludes.{ExcludeSet, excluded}
use vextra.Path.{split}
use vextra.Excludes.Inherited.{excluded-Ancestor}
use vextra.Build.{deepest_first}
use vextra.Build.Deepest.{ChildrenFirst, deepest_first-ChildrenFirst}

abbrev entry_of : String → String → Entry
entry_of path type = record {
  path = codes path;
  type = type;
  size = 3;
  mode = 420;
  mtime = pos 7;
  link = [];
}

-- A symlink, and an entry that claims to be below it.
abbrev trap : List Entry
trap = entry_of "a" t_link ∷ entry_of "a/b" t_file ∷ []

check_entries-IsSafe_example :
    ((check_entries trap ≡ some (ok tt)) × All (IsSafe trap) trap)
    ⊎ ((check_entries trap ≡ some (err Err.other)) × (¬ All (IsSafe trap) trap))
check_entries-IsSafe_example = check_entries-IsSafe trap

abbrev tree : List Entry
tree =
    entry_of "a" t_dir ∷ entry_of "a/b" t_dir ∷ entry_of "c" t_file ∷ entry_of "a/b/d" t_file ∷ []

deepest_first-ChildrenFirst_example :
    Perm (deepest_first tree) tree × ChildrenFirst (deepest_first tree)
deepest_first-ChildrenFirst_example = deepest_first-ChildrenFirst tree

-- A pattern matches the name that it spells.
abbrev literally : Text → Text → Option Bool
literally pattern name = some (text_eq pattern name)

abbrev build_dir : ExcludeSet
build_dir =
    record { raw = codes "build/"; anchored = false; dir_only = true; body = codes "build" } ∷ []

excluded-Ancestor_example :
    excluded literally (some build_dir) (codes "src/build/out") t_file ≡ true
unfolding excluded split text_eq
excluded-Ancestor_example =
    excluded-Ancestor literally (some build_dir) (codes "src/build") (codes "src/build/out") t_file
      (codes "out", refl) refl

abbrev quoted_args : List Text
quoted_args = codes "a b" ∷ [] ∷ codes "\"" ∷ []
