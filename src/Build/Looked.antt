-- ===== src/Build/Looked.antt =====
-- What `BuildPlan` calls: looking at paths, and listings.
use vextra.Base.{Bool, true, false, not, Option, none, some, [], str_eq, if◌then◌else◌, Text}
use vextra.Base.Int.{ℤ}
use vextra.Base.Result.{Err, Result, ok, err, pure, attempt}
use vextra.Base.Keeps.{Keeps, Keeps-pure, Keeps-raise, Keeps-attempt, Keeps-if, Keeps-bind}
use vextra.Path.{base, path_join}
use vextra.Listing.{check_entries}
use vextra.Entry.{Entry, t_dir, t_file}
use vextra.Fs.{Fs}
use vextra.Plan.{Options}
use vextra.Build.{
  is_not_exist, file_plan, dir_plan, from_check, required, if_exists, plan_file, list_dst,
  plan_listed, plan_dir, plan_rooted, build_plan,
}

-- A predicate on worlds is kept by what only looks at a file system.
pub record Looks {S H : Type 0} (P : S → Type 0) (fs : Fs S H) : Type 0 where
  pub stats : (p : Text) (follow : Bool) → Keeps P (fs.stat p follow)
  pub lists : (p : Text) (deep : Bool) → Keeps P (fs.list p deep)
  pub signs : (p job : Text) (bs : ℤ) → Keeps P (fs.sigs p job bs)

module _ {S : Type 0} (P : S → Type 0) where
  from_check-Keeps : (r : Option (Result (Unit {0}))) → Keeps P (from_check r)
  from_check-Keeps none = Keeps-raise Err.other
  from_check-Keeps (some (ok u)) = Keeps-pure tt
  from_check-Keeps (some (err e)) = Keeps-raise e

  required-Keeps : (r : Result Entry) → Keeps P (required r)
  required-Keeps (ok e) = Keeps-pure (some e)
  required-Keeps (err e) = Keeps-raise e

  if_exists-Keeps : (r : Result Entry) → Keeps P (if_exists r)
  if_exists-Keeps (ok e) = Keeps-pure (some e)
  if_exists-Keeps (err e) = Keeps-if (is_not_exist e) _ _ (Keeps-pure none) (Keeps-raise e)

module _ (path_match : Text → Text → Option Bool) {S H K : Type 0} (P : S → Type 0) (src : Fs S H)
    (dst : Fs S K) (ls : Looks P src) (ld : Looks P dst) where
  plan_file-Keeps :
      (sp dp : Text) (e : Entry) (d : Option Entry)
      → Keeps P (plan_file path_match src dst sp dp e d)
  unfolding plan_file
  plan_file-Keeps sp dp e none = Keeps-pure _
  plan_file-Keeps sp dp e (some d) =
      let inside = str_eq d.type t_dir in
      let target = if inside then path_join dp (base sp) else dp in
      Keeps-bind (attempt (dst.stat target false)) _ (Keeps-attempt _ (ld.stats target false)) λ r.
        Keeps-bind (if inside then if_exists r else required r)
          (λ current. pure (file_plan sp target e current))
          (Keeps-if inside _ _ (if_exists-Keeps P r) (required-Keeps P r)) λ c. Keeps-pure _

  list_dst-Keeps : (dp : Text) (d : Option Entry) → Keeps P (list_dst path_match src dst dp d)
  unfolding list_dst
  list_dst-Keeps dp none = Keeps-pure []
  list_dst-Keeps dp (some d) = Keeps-bind (dst.list dp true) _ (ld.lists dp true) λ l.
      Keeps-bind (from_check (check_entries l)) (λ _. pure l) (from_check-Keeps P _)
        λ u. Keeps-pure l

  plan_listed-Keeps :
      (sp dp : Text) (o : Options) (e : Entry) (d : Option Entry)
      → Keeps P (plan_listed path_match src dst sp dp o e d)
  unfolding plan_listed
  plan_listed-Keeps sp dp o e d = Keeps-bind (src.list sp true) _ (ls.lists sp true) λ l.
      Keeps-bind (from_check (check_entries l)) _ (from_check-Keeps P _) λ u.
        Keeps-bind (list_dst path_match src dst dp d)
          (λ dl. pure (dir_plan path_match src dst sp dp o e d l dl)) (list_dst-Keeps dp d)
          λ dl. Keeps-pure _

  plan_dir-Keeps :
      (sp dp : Text) (o : Options) (e : Entry) (d : Option Entry)
      → Keeps P (plan_dir path_match src dst sp dp o e d)
  unfolding plan_dir
  plan_dir-Keeps sp dp o e none = plan_listed-Keeps sp dp o e none
  plan_dir-Keeps sp dp o e (some d) =
      Keeps-if (not (str_eq d.type t_dir)) _ _ (Keeps-raise Err.other)
        (plan_listed-Keeps sp dp o e (some d))

  plan_rooted-Keeps :
      (sp dp : Text) (o : Options) (e : Entry) (d : Option Entry)
      → Keeps P (plan_rooted path_match src dst sp dp o e d)
  unfolding plan_rooted
  plan_rooted-Keeps sp dp o e d =
      Keeps-if (str_eq e.type t_file) _ _ (plan_file-Keeps sp dp e d)
        (Keeps-if (str_eq e.type t_dir) _ _ (plan_dir-Keeps sp dp o e d) (Keeps-raise Err.other))

  -- Whatever is kept by looking at paths and by listings is kept by BuildPlan.
  pub build_plan-Keeps :
      (sp dp : Text) (o : Options) → Keeps P (build_plan path_match src dst sp dp o)
  unfolding build_plan
  build_plan-Keeps sp dp o = Keeps-bind (src.stat sp true) _ (ls.stats sp true) λ e.
      Keeps-bind (attempt (dst.stat dp true)) _ (Keeps-attempt _ (ld.stats dp true)) λ r.
        Keeps-bind (if_exists r) (plan_rooted path_match src dst sp dp o e) (if_exists-Keeps P r)
          (plan_rooted-Keeps sp dp o e)
