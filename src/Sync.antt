-- ===== src/Sync.antt =====
-- `EstimateDeltas` and `Run` of engine.go: a plan is made, and shown or executed. The estimates are
-- made one after another, in the order of the plan. What is printed is left out.
pub mod Guarded
pub mod Untouched
use vextra.Base.{ℕ, Bool, ◌||◌, Option, none, some, List, [], ◌∷◌, ◌++◌, leb, if◌then◌else◌, Text}
use vextra.Base.Int.{ℤ, pos, ◌+ℤ◌}
use vextra.Base.Result.{Err, Result, ok, err, M, ◌>>=◌, pure, attempt}
use vextra.Fs.{Fs}
use vextra.Plan.{
  act_file, Action, Options, Plan, DeltaInfo, size_of, is_new, has_changes, check_safety,
}
use vextra.Build.{build_plan}
use vextra.Engine.{Run, Stats, no_stats, estimate}
use vextra.Execute.{execute}

-- What `EstimateDeltas` makes of a plan, and the first error; the plan is `Deep` if there is none.
pub record Estimates : Type 0 where
  pub actions : List Action
  pub delta_bytes : ℤ
  pub first_err : Option Err

abbrev pub no_estimates : Estimates
no_estimates = record { actions = []; delta_bytes = pos 0; first_err = none }

abbrev pub add_estimate : Action → ℤ → Estimates → Estimates
add_estimate a bytes e = record e {
  actions = e.actions ++ (a ∷ []);
  delta_bytes = e.delta_bytes +ℤ bytes;
}

-- Keeps the first error.
unfoldable pub or_first : Option Err → Err → Option Err
or_first none e = some e
or_first (some f) e = some f

-- The end of a goroutine.
unfoldable pub with_estimate : Action → Estimates → Result DeltaInfo → Estimates
with_estimate a e (ok info) = add_estimate (record a { delta = some info }) info.bytes e
with_estimate a e (err x) = record (add_estimate a (pos 0) e) { first_err = or_first e.first_err x }

-- What `Run` returns.
pub record Outcome : Type 0 where
  pub plan : Option Plan
  pub estimates : Option Estimates
  pub stats : Option Stats
  pub failures : List (Text × Err)
  pub error : Option Err

abbrev pub no_outcome : Outcome
no_outcome = record { plan = none; estimates = none; stats = none; failures = []; error = none }

abbrev pub start : {S : Type 0} → S → Run S
start w = record { world = w; stats = no_stats; fails = [] }

abbrev pub error_of : {A : Type 0} → Result A → Option Err
error_of r = elim r [ ok a ↦ none | err e ↦ some e ]

module _ (path_match : Text → Text → Option Bool) (hash : Text → Text)
    (job_id : Text → ℕ → ℤ → Bool → Text) (block_order : List ℕ → List ℕ)
    (work_order : List Action → List Action) {S H K : Type 0} (src : Fs S H) (dst : Fs S K)
    (o : Options) where
  -- A large file that both sides have is estimated, another one counts in full.
  unfoldable pub estimate_file : Action → Estimates → M (Run S) Estimates
  estimate_file a e =
      if leb (size_of a.src) o.small_file || is_new a
      then pure (add_estimate a (pos (size_of a.src)) e)
      else attempt (estimate hash job_id block_order src dst o a) >>= λ r.
          pure (with_estimate a e r)

  abbrev pub estimate_action : Action → Estimates → M (Run S) Estimates
  estimate_action a e = elim a.kind [
    | act_file ↦ estimate_file a e
    | _ ↦ pure (add_estimate a (pos 0) e)
  ]

  unfoldable pub estimate_deltas : List Action → Estimates → M (Run S) Estimates
  estimate_deltas [] e = pure e
  estimate_deltas (a ∷ acts) e = estimate_action a e >>= estimate_deltas acts

  abbrev pub estimates_of : {A : Type 0} → Result A → Option A
  estimates_of r = elim r [ ok a ↦ some a | err e ↦ none ]

  -- `dryRun`
  unfoldable pub preview : Plan → S → Outcome × S
  preview p w =
      let (r, t) = estimate_deltas p.actions no_estimates (start w) in
      let found = estimates_of r in
      if o.deep
      then (
        record no_outcome {
          plan = some p;
          estimates = found;
          error = elim found [ none ↦ none | some e ↦ e.first_err ];
        },
        t.world,
      )
      else (record no_outcome { plan = some p }, w)

  unfoldable pub run_plan : Plan → S → Outcome × S
  run_plan p w =
      let (r, t) = execute hash job_id block_order work_order src dst o p.actions (start w) in
      (
        record no_outcome {
          plan = some p;
          stats = some t.stats;
          failures = t.fails;
          error = error_of r;
        },
        t.world,
      )

  -- The safeguards, before anything is touched.
  unfoldable pub guarded : Plan → Result (Unit {0}) → S → Outcome × S
  guarded p (err e) w = (record no_outcome { plan = some p; error = some e }, w)
  guarded p (ok u) w =
      if has_changes p then run_plan p w else (record no_outcome { plan = some p }, w)

  unfoldable pub run_planned : Bool → Result Plan → S → Outcome × S
  run_planned dry (err e) w = (record no_outcome { error = some e }, w)
  run_planned dry (ok p) w = if dry then preview p w else guarded p (check_safety p o) w

  -- `Run`
  unfoldable pub run_sync : Text → Text → Bool → S → Outcome × S
  run_sync src_path dst_path dry s =
      let (r, w) = build_plan path_match src dst src_path dst_path o s in run_planned dry r w
