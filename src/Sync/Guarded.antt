-- ===== src/Sync/Guarded.antt =====
-- `Run` of engine.go and the safeguards on deletions.
use vextra.Base.{ℕ, ◌≡◌, refl, ap, ◌⊎◌, inl, inr, Bool, false, Option, List, Text}
use vextra.Base.Int.{ℤ}
use vextra.Base.Result.{Result, ok, err}
use vextra.Fs.{Fs}
use vextra.Plan.{Action, Options, Plan, check_safety}
use vextra.Plan.Safety.{Allowed, check_safety-Allowed}
use mathlib.Core.Path.{subst}
use vextra.Build.{build_plan}
use vextra.Build.Finished.{deletions, build_plan-IsCounted}
use vextra.Sync.{guarded, run_planned, run_sync}

module _ (path_match : Text → Text → Option Bool) (hash : Text → Text)
    (job_id : Text → ℕ → ℤ → Bool → Text) (block_order : List ℕ → List ℕ)
    (work_order : List Action → List Action) {S H K : Type 0} (src : Fs S H) (dst : Fs S K)
    (o : Options) where
  -- The plan may be executed.
  abbrev pub IsAllowed : Plan → Type 0
  IsAllowed p = (deletions p ≡ 0) ⊎ Allowed (deletions p) o

  -- The plan's own count may be.
  abbrev Counted : Plan → Type 0
  Counted p = (p.deletes ≡ 0) ⊎ Allowed p.deletes o

  guarded-Counted :
      (p : Plan) (r : Result (Unit {0})) (w : S)
      → check_safety p o ≡ r
      → ((guarded path_match hash job_id block_order work_order src dst o p r w).1 ≡ w) ⊎ Counted p
  unfolding guarded
  guarded-Counted p (err e) w h = inl refl
  guarded-Counted p (ok u) w h = inr ((check_safety-Allowed p o).0.0 h)

  run_planned-Counted :
      (r : Result Plan) (w : S)
      → ((run_planned path_match hash job_id block_order work_order src dst o false r w).1 ≡ w)
        ⊎ ((p : Plan) × (r ≡ ok p) × Counted p)
  unfolding run_planned
  run_planned-Counted (err e) w = inl refl
  run_planned-Counted (ok p) w = elim (guarded-Counted p (check_safety p o) w refl) [
    | inl e ↦ inl e
    | inr a ↦ inr (p, refl, a)
  ]

  -- When a run that is no dry run ends, the two sides are as the planning left them, or a plan was made
  -- with no deletion among its actions, or with so many that the limit and the confirmation allow.
  pub run_sync-IsAllowed :
      (src_path dst_path : Text) (s : S)
      → ((run_sync path_match hash job_id block_order work_order src dst o src_path dst_path false
            s).1
          ≡ (build_plan path_match src dst src_path dst_path o s).1)
        ⊎ ((p : Plan) × ((build_plan path_match src dst src_path dst_path o s).0 ≡ ok p)
            × IsAllowed p)
  unfolding run_sync
  run_sync-IsAllowed src_path dst_path s =
      let x = build_plan path_match src dst src_path dst_path o s in
      elim (run_planned-Counted (x.0) (x.1)) [
        | inl e ↦ inl e
        | inr (p, e, a) ↦
            let n : p.deletes ≡ deletions p =
              build_plan-IsCounted path_match src dst src_path dst_path o s (x.1) p
                (ap (λ r. (r, x.1)) e) in
            inr (p, e, subst (λ k. (k ≡ 0) ⊎ Allowed k o) n a)
      ]
