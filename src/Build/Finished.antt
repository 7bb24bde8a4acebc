-- ===== src/Build/Finished.antt =====
-- The plans that `BuildPlan` returns went through `finish`.
use vextra.Base.{
  ℕ, ◌≡◌, refl, ap, Bool, true, false, not, Option, none, some, arith, str_eq, if◌then◌else◌, Text,
}
use vextra.Base.Result.{ok, ◌>>=◌, pure, attempt}
use vextra.Base.Gives.{Gives, Gives-any, Gives-bind, Gives-if, Gives-ok, Gives-pure, Gives-raise}
use vextra.Path.{base, path_join}
use vextra.Listing.{check_entries}
use vextra.Entry.{Entry, t_file, t_dir}
use vextra.Fs.{Fs}
use vextra.Plan.{act_delete, Options, Plan, finish}
use vextra.Plan.Counted.{count, of_kind, finish-Counts}
use vextra.Build.{
  if_exists, required, from_check, plan_listings, plan_file, plan_listed, plan_dir, plan_rooted,
  build_plan, list_dst, dir_plan, file_plan,
}

-- How many actions of a plan are deletions.
abbrev pub deletions : Plan → ℕ
deletions p = count (of_kind act_delete) p.actions

abbrev IsCounted : Plan → Type 0
IsCounted p = p.deletes ≡ deletions p

finish-IsCounted : (p : Plan) → p.deletes ≡ 0 → IsCounted (finish p)
finish-IsCounted p h =
    let c = finish-Counts p in
    omega (arith, h, c.deletes, ap (count (of_kind act_delete)) c.actions_kept)

module _ (path_match : Text → Text → Option Bool) {S H K : Type 0} (src : Fs S H) (dst : Fs S K)
    (src_path dst_path : Text) (o : Options) where
  file_plan-IsCounted :
      (target : Text) (sroot : Entry) (current : Option Entry)
      → IsCounted (file_plan src_path target sroot current)
  unfolding file_plan
  file_plan-IsCounted target sroot current = finish-IsCounted _ refl

  plan_listed-IsCounted :
      (sroot : Entry) (droot : Option Entry)
      → Gives IsCounted (plan_listed path_match src dst src_path dst_path o sroot droot)
  unfolding plan_listed dir_plan plan_listings
  plan_listed-IsCounted sroot droot =
      let plan = dir_plan path_match src dst src_path dst_path o sroot droot in
      let listed = list_dst path_match src dst dst_path droot in
      Gives-bind (src.list src_path true)
        (λ sl. from_check (check_entries sl) >>= λ _. listed >>= λ dl. pure (plan sl dl))
        (Gives-any _)
        λ sl u.
          Gives-bind (from_check (check_entries sl)) (λ _. listed >>= λ dl. pure (plan sl dl))
            (Gives-any _)
            λ v1 u1.
              Gives-bind listed (λ dl. pure (plan sl dl)) (Gives-any _)
                λ dl u2. Gives-pure (plan sl dl) (finish-IsCounted _ refl)

  plan_dir-IsCounted :
      (sroot : Entry) (droot : Option Entry)
      → Gives IsCounted (plan_dir path_match src dst src_path dst_path o sroot droot)
  unfolding plan_dir
  plan_dir-IsCounted sroot none = plan_listed-IsCounted sroot none
  plan_dir-IsCounted sroot (some d) =
      Gives-if (not (str_eq d.type t_dir)) _ _ (λ e. Gives-raise _)
        (λ e. plan_listed-IsCounted sroot (some d))

  plan_file-IsCounted :
      (sroot : Entry) (droot : Option Entry)
      → Gives IsCounted (plan_file path_match src dst src_path dst_path sroot droot)
  unfolding plan_file
  plan_file-IsCounted sroot none = Gives-pure _ (file_plan-IsCounted dst_path sroot none)
  plan_file-IsCounted sroot (some d) =
      let inside = str_eq d.type t_dir in
      let target = if inside then path_join dst_path (base src_path) else dst_path in
      let plan = λ (c : Option Entry). pure {S = S} (file_plan src_path target sroot c) in
      Gives-bind (attempt (dst.stat target false))
        (λ f. (if inside then if_exists f else required f) >>= plan) (Gives-any _)
        λ f u.
          Gives-bind (if inside then if_exists f else required f) plan (Gives-any _)
            λ c v. Gives-pure _ (file_plan-IsCounted target sroot c)

  plan_rooted-IsCounted :
      (sroot : Entry) (droot : Option Entry)
      → Gives IsCounted (plan_rooted path_match src dst src_path dst_path o sroot droot)
  unfolding plan_rooted
  plan_rooted-IsCounted sroot droot =
      Gives-if (str_eq sroot.type t_file) _ _ (λ e. plan_file-IsCounted sroot droot)
        (λ e.
          Gives-if (str_eq sroot.type t_dir) _ _ (λ g. plan_dir-IsCounted sroot droot)
            (λ g. Gives-raise _))

  -- A plan counts its deletions.
  build_plan-Gives : Gives IsCounted (build_plan path_match src dst src_path dst_path o)
  unfolding build_plan
  build_plan-Gives =
      let rooted = plan_rooted path_match src dst src_path dst_path o in
      Gives-bind (src.stat src_path true)
        (λ sroot.
          attempt (dst.stat dst_path true) >>= λ f. if_exists f >>= λ droot. rooted sroot droot)
        (Gives-any _)
        λ sroot u.
          Gives-bind (attempt (dst.stat dst_path true))
            (λ f. if_exists f >>= λ droot. rooted sroot droot) (Gives-any _)
            λ f v.
              Gives-bind (if_exists f) (rooted sroot) (Gives-any _)
                λ droot w. plan_rooted-IsCounted sroot droot

  pub build_plan-IsCounted :
      (s t : S) (p : Plan)
      → build_plan path_match src dst src_path dst_path o s ≡ (ok p, t)
      → p.deletes ≡ deletions p
  build_plan-IsCounted s t p h = Gives-ok _ s t p build_plan-Gives h
