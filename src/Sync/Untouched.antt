-- ===== src/Sync/Untouched.antt =====
-- A dry run of `Run` only looks at the two sides.
use vextra.Base.{ℕ, Bool, true, false, not, ◌||◌, Option, List, [], ◌∷◌, leb, if◌then◌else◌, Text}
use vextra.Base.Int.{ℤ}
use vextra.Base.Result.{Err, Result, ok, err, M, pure, attempt}
use vextra.Base.Keeps.{Keeps, Keeps-pure, Keeps-raise, Keeps-attempt, Keeps-if, Keeps-bind}
use vextra.Base.Int.{pos, eqb_ℤ}
use vextra.Delta.{Sigs, block_size_for}
use vextra.Fs.{Fs}
use vextra.Plan.{
  Action, ActKind, act_mkdir, act_file, act_link, act_meta, act_delete, Options, Plan, is_new,
  size_of,
}
use vextra.Engine.{Run, on, both_sigs, mtime_of, load_sigs, check_source, estimate}
use vextra.Sync.{
  Estimates, Outcome, with_estimate, no_estimates, start, estimate_file, estimate_action,
  estimate_deltas, preview, run_planned, run_sync,
}
use vextra.Build.Looked.{Looks, build_plan-Keeps}

-- A predicate on the world of a run.
abbrev pub InRun : {S : Type 0} → (S → Type 0) → Run S → Type 0
InRun P r = P r.world

module _ (path_match : Text → Text → Option Bool) (hash : Text → Text)
    (job_id : Text → ℕ → ℤ → Bool → Text) (block_order : List ℕ → List ℕ)
    (work_order : List Action → List Action) {S H K : Type 0} (P : S → Type 0) (src : Fs S H)
    (dst : Fs S K) (o : Options) (ls : Looks P src) (ld : Looks P dst) where
  on-Keeps : {A : Type 0} (m : M S A) → Keeps P m → Keeps (InRun P) (on m)
  on-Keeps m k = record { at = λ r h. k.at r.world h }

  both_sigs-Keeps : (s d : Result Sigs) → Keeps {S = Run S} (InRun P) (both_sigs s d)
  both_sigs-Keeps (err e) d = Keeps-raise e
  both_sigs-Keeps (ok s) (err e) = Keeps-raise e
  both_sigs-Keeps (ok s) (ok d) = Keeps-pure (s, d)

  load_sigs-Keeps :
      (a : Action) (job : Text) (bs : ℕ)
      → Keeps (InRun P) (load_sigs hash job_id block_order src dst o a job bs)
  unfolding load_sigs
  load_sigs-Keeps a job bs =
      Keeps-bind (attempt (on (dst.sigs a.dst_path job (pos bs)))) _
        (Keeps-attempt _ (on-Keeps _ (ld.signs a.dst_path job (pos bs))))
        λ d.
          Keeps-bind (attempt (on (src.sigs a.src_path [] (pos bs)))) (λ s. both_sigs s d)
            (Keeps-attempt _ (on-Keeps _ (ls.signs a.src_path [] (pos bs))))
            λ s. both_sigs-Keeps s d

  estimate-Keeps : (a : Action) → Keeps (InRun P) (estimate hash job_id block_order src dst o a)
  unfolding estimate
  estimate-Keeps a =
      let size = size_of a.src in
      Keeps-bind
        (load_sigs hash job_id block_order src dst o a
          (job_id a.dst_path size (mtime_of a.src) o.resume) (block_size_for size o.block_size))
        _ (load_sigs-Keeps a _ _)
        λ pair.
          Keeps-bind (check_source hash job_id block_order src dst o (pair.0) size) _
            (Keeps-if (not pair.0.exists || not (eqb_ℤ pair.0.size (pos size))) _ _
              (Keeps-raise Err.verify) (Keeps-pure tt))
            λ u. Keeps-pure _

  estimate_file-Keeps :
      (a : Action) (e : Estimates)
      → Keeps (InRun P) (estimate_file path_match hash job_id block_order work_order src dst o a e)
  unfolding estimate_file
  estimate_file-Keeps a e =
      Keeps-if (leb (size_of a.src) o.small_file || is_new a) _ _ (Keeps-pure _) (
        Keeps-bind (attempt (estimate hash job_id block_order src dst o a))
          (λ r. pure (with_estimate a e r)) (Keeps-attempt _ (estimate-Keeps a)) λ r. Keeps-pure _)

  by_kind :
      {A : Type 0} (k : ActKind) (m n : M (Run S) A)
      → Keeps (InRun P) m
      → Keeps (InRun P) n
      → Keeps (InRun P) (elim k as (λ _. M (Run S) A) [ act_file ↦ m | _ ↦ n ])
  by_kind act_file m n km kn = km
  by_kind act_mkdir m n km kn = kn
  by_kind act_link m n km kn = kn
  by_kind act_meta m n km kn = kn
  by_kind act_delete m n km kn = kn

  estimate_deltas-Keeps :
      (as' : List Action) (e : Estimates)
      → Keeps
          (InRun P)
          (estimate_deltas path_match hash job_id block_order work_order src dst o as' e)
  unfolding estimate_deltas
  estimate_deltas-Keeps [] e = Keeps-pure e
  estimate_deltas-Keeps (a ∷ as') e =
      Keeps-bind (estimate_action path_match hash job_id block_order work_order src dst o a e)
        (estimate_deltas path_match hash job_id block_order work_order src dst o as')
        (by_kind a.kind _ _ (estimate_file-Keeps a e) (Keeps-pure _)) (estimate_deltas-Keeps as')

  of_branches : (b : Bool) (x y : Outcome × S) → P x.1 → P y.1 → P (if b then x else y).1
  of_branches true x y hx hy = hx
  of_branches false x y hx hy = hy

  preview-keeps :
      (p : Plan) (w : S)
      → P w
      → P (preview path_match hash job_id block_order work_order src dst o p w).1
  unfolding preview
  preview-keeps p w h =
      of_branches o.deep _ _ ((estimate_deltas-Keeps p.actions no_estimates).at (start w) h) h

  planned-keeps :
      (r : Result Plan) (w : S)
      → P w
      → P (run_planned path_match hash job_id block_order work_order src dst o true r w).1
  unfolding run_planned
  planned-keeps (ok p) w h = preview-keeps p w h
  planned-keeps (err e) w h = h

  -- Whatever is kept by looking at paths, by listings and by signatures, of both sides, is kept by a dry
  -- run, with or without --deep, whether or not it succeeds.
  pub run_sync-Looks :
      (sp dp : Text) (w : S)
      → P w
      → P (run_sync path_match hash job_id block_order work_order src dst o sp dp true w).1
  unfolding run_sync
  run_sync-Looks sp dp w h =
      planned-keeps _ _ ((build_plan-Keeps path_match P src dst ls ld sp dp o).at w h)
