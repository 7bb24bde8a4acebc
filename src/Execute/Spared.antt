-- ===== src/Execute/Spared.antt =====
-- The deletions of `Execute` are left out where something failed before them.
use vextra.Base.{ℕ, ◌≡◌, sym, Bool, false, List, [], ◌∷◌, if◌then◌else◌, Text}
use vextra.Base.Int.{ℤ}
use vextra.Base.Result.{Err, Result, ok, err, M, ◌>>=◌, pure, raise}
use vextra.Base.Keeps.{Keeps, Keeps-pure, Keeps-raise, Keeps-if, Keeps-bind, Keeps-continue}
use mathlib.Core.Path.{subst}
use vextra.Plan.{ActKind, act_mkdir, Action, Options}
use vextra.Fs.{Fs}
use vextra.Engine.{Run}
use vextra.Execute.{
  Queues, no_queues, add_fail, or_fail, each, queue_dir, enqueue, first_pass, take_job, do_work,
  run_queues, apply_changes, execute,
}
use vextra.Execute.Queued.{without_deletes}
use vextra.Execute.Deletes.{execute-without_deletes}
use vextra.Execute.Failed.{
  Recorded, job, dir_made, queued, pass, turn, work, mode_set, mode_call, turn_end, mode_end,
  DirFails, dir_here, dir_later, JobFails, job_here, job_later, ModeFails, mode_here, mode_later,
  Fails, dirs, jobs, modes, add_fail-Recorded, first_pass-Keeps, do_work-Keeps, set_modes-Keeps,
}

module _ (hash : Text → Text) (job_id : Text → ℕ → ℤ → Bool → Text) (block_order : List ℕ → List ℕ)
    (work_order : List Action → List Action) {S H K : Type 0} (src : Fs S H) (dst : Fs S K)
    (o : Options) where
  abbrev Rec : Run S → Type 0
  Rec = Recorded hash job_id block_order work_order src dst o

  -- What follows a step behind which a failure is recorded keeps it.
  then_Recorded :
      {X Y : Type 0} (x : Result X × Run S) (f : X → M (Run S) Y) (r : Run S)
      → Rec x.1
      → ((a : X) → Keeps Rec (f a))
      → Rec (◌>>=◌ (λ (t : Run S). x) f r).1
  then_Recorded x f r h k = Keeps-continue x f h k

  -- What a step that succeeds leads to.
  step_to :
      {X Y : Type 0} (x : Result X × Run S) (f : X → M (Run S) Y) (r : Run S) (a : X) (t : Run S)
      → x ≡ (ok a, t)
      → Rec (f a t).1
      → Rec (◌>>=◌ (λ (t : Run S). x) f r).1
  step_to x f r a t e h =
      subst (λ (y : Result _ × Run S). Rec (◌>>=◌ (λ (t : Run S). y) f r).1) (sym e) h

  queue_failed :
      (a : Action) (q : Queues) (x : Result (Unit {0})) (r : Run S) (e : Err)
      → x ≡ err e
      → Rec (queue_dir a q x r).1
  unfolding queue_dir add_fail
  queue_failed a q x r e h =
      subst (λ (y : Result (Unit {0})). Rec (queue_dir a q y r).1) (sym h)
        (add_fail-Recorded hash job_id block_order work_order src dst o a e r)

  enqueue_failed :
      (k : ActKind) (a : Action) (q : Queues) (r : Run S) (e : Err)
      → k ≡ act_mkdir
      → (dir_made hash job_id block_order work_order src dst o a r).0 ≡ err e
      → Rec (queued hash job_id block_order work_order src dst o k a q r).1
  unfolding enqueue
  enqueue_failed k a q r e i h =
      let m = dir_made hash job_id block_order work_order src dst o a r in
      subst (λ (k : ActKind). Rec (queued hash job_id block_order work_order src dst o k a q r).1)
        (sym i) (queue_failed a q (m.0) (m.1) e h)

  DirFails-Recorded :
      (acts : List Action) (q : Queues) (r : Run S)
      → DirFails hash job_id block_order work_order src dst o acts q r
      → Rec (pass hash job_id block_order work_order src dst o acts q r).1
  unfolding first_pass
  DirFails-Recorded [] q r d = elim d [ ]
  DirFails-Recorded (a ∷ acts) q r (dir_here _ _ _ _ e i h) =
      then_Recorded (queued hash job_id block_order work_order src dst o a.kind a q r)
        (pass hash job_id block_order work_order src dst o acts) r
        (enqueue_failed a.kind a q r e i h)
        (first_pass-Keeps hash job_id block_order work_order src dst o acts)
  DirFails-Recorded (a ∷ acts) q r (dir_later _ _ _ q' _ r' e d) =
      step_to (queued hash job_id block_order work_order src dst o a.kind a q r)
        (pass hash job_id block_order work_order src dst o acts) r q' r' e
        (DirFails-Recorded acts q' r' d)

  turn_failed :
      (a : Action) (x : Result (Unit {0})) (r : Run S) (e : Err)
      → x ≡ err e
      → Rec (turn_end hash job_id block_order work_order src dst o a x r).1
  unfolding add_fail
  turn_failed a x r e h =
      subst
        (λ (y : Result (Unit {0})).
          Rec (turn_end hash job_id block_order work_order src dst o a y r).1)
        (sym h) (add_fail-Recorded hash job_id block_order work_order src dst o a e r)

  JobFails-Recorded :
      (acts : List Action) (b : Bool) (r : Run S)
      → JobFails hash job_id block_order work_order src dst o acts b r
      → Rec (work hash job_id block_order work_order src dst o acts b r).1
  unfolding do_work take_job
  JobFails-Recorded [] b r d = elim d [ ]
  JobFails-Recorded (a ∷ acts) b r (job_here _ _ _ e h) =
      let m = job hash job_id block_order work_order src dst o a r in
      then_Recorded (turn hash job_id block_order work_order src dst o a false r)
        (work hash job_id block_order work_order src dst o acts) r (turn_failed a (m.0) (m.1) e h)
        (do_work-Keeps hash job_id block_order work_order src dst o acts)
  JobFails-Recorded (a ∷ acts) b r (job_later _ _ _ b' _ r' e d) =
      step_to (turn hash job_id block_order work_order src dst o a b r)
        (work hash job_id block_order work_order src dst o acts) r b' r' e
        (JobFails-Recorded acts b' r' d)

  mode_failed :
      (a : Action) (x : Result (Unit {0})) (r : Run S) (e : Err)
      → x ≡ err e
      → Rec (mode_end hash job_id block_order work_order src dst o a x r).1
  mode_failed a x r e h =
      subst
        (λ (y : Result (Unit {0})).
          Rec (mode_end hash job_id block_order work_order src dst o a y r).1)
        (sym h) (add_fail-Recorded hash job_id block_order work_order src dst o a e r)

  abbrev set_modes : List Action → M (Run S) (Unit {0})
  set_modes = each (mode_set hash job_id block_order work_order src dst o)

  ModeFails-Recorded :
      (acts : List Action) (r : Run S)
      → ModeFails hash job_id block_order work_order src dst o acts r
      → Rec (set_modes acts r).1
  unfolding each or_fail
  ModeFails-Recorded [] r d = elim d [ ]
  ModeFails-Recorded (a ∷ acts) r (mode_here _ _ _ e h) =
      let m = mode_call hash job_id block_order work_order src dst o a r in
      then_Recorded (mode_set hash job_id block_order work_order src dst o a r)
        (λ _. set_modes acts) r (mode_failed a (m.0) (m.1) e h)
        (λ u. set_modes-Keeps hash job_id block_order work_order src dst o acts)
  ModeFails-Recorded (a ∷ acts) r (mode_later _ _ _ r' e d) =
      step_to (mode_set hash job_id block_order work_order src dst o a r) (λ _. set_modes acts) r tt
        r' e (ModeFails-Recorded acts r' d)

  -- The workers are done, or were stopped.
  abbrev modes_after : Queues → Bool → M (Run S) (Unit {0})
  modes_after q b = (if b then raise Err.conn else pure tt) >>= λ _. set_modes q.metas

  modes_after-Keeps : (q : Queues) (b : Bool) → Keeps Rec (modes_after q b)
  modes_after-Keeps q b =
      Keeps-bind (if b then raise Err.conn else pure tt) (λ _. set_modes q.metas)
        (Keeps-if b _ _ (Keeps-raise Err.conn) (Keeps-pure tt))
        (λ u. set_modes-Keeps hash job_id block_order work_order src dst o q.metas)

  abbrev after : Queues → M (Run S) Queues
  after q = run_queues hash job_id block_order work_order src dst o q >>= λ _. pure q

  after-Keeps : (q : Queues) → Keeps Rec (after q)
  unfolding run_queues
  after-Keeps q =
      Keeps-bind (run_queues hash job_id block_order work_order src dst o q) (λ _. pure q)
        (Keeps-bind (work hash job_id block_order work_order src dst o (work_order q.work) false)
          (modes_after q)
          (do_work-Keeps hash job_id block_order work_order src dst o (work_order q.work) false)
          (modes_after-Keeps q))
        (λ u. Keeps-pure q)

  Fails-Recorded :
      (acts : List Action) (r : Run S)
      → Fails hash job_id block_order work_order src dst o acts r
      → Rec (apply_changes hash job_id block_order work_order src dst o acts r).1
  unfolding apply_changes run_queues
  Fails-Recorded acts r (dirs d) =
      then_Recorded (pass hash job_id block_order work_order src dst o acts no_queues r) after r
        (DirFails-Recorded acts no_queues r d) after-Keeps
  Fails-Recorded acts r (jobs q r' e d) =
      step_to (pass hash job_id block_order work_order src dst o acts no_queues r) after r q r' e (
        then_Recorded (run_queues hash job_id block_order work_order src dst o q r') (λ _. pure q)
          r'
          (then_Recorded
            (work hash job_id block_order work_order src dst o (work_order q.work) false r')
            (modes_after q) r' (JobFails-Recorded (work_order q.work) false r' d)
            (modes_after-Keeps q))
          (λ u. Keeps-pure q))
  Fails-Recorded acts r (modes q r' r'' e f d) =
      step_to (pass hash job_id block_order work_order src dst o acts no_queues r) after r q r' e (
        then_Recorded (run_queues hash job_id block_order work_order src dst o q r') (λ _. pure q)
          r'
          (step_to (work hash job_id block_order work_order src dst o (work_order q.work) false r')
            (modes_after q) r' false r'' f (ModeFails-Recorded q.metas r'' d))
          (λ u. Keeps-pure q))

  -- If a directory of the plan cannot be made, a transfer or a link fails, or a permission cannot be
  -- set, then the execution of the plan does what the execution of the same plan without its deletions
  -- does, with the same result.
  pub execute-Fails :
      (acts : List Action) (r : Run S)
      → Fails hash job_id block_order work_order src dst o acts r
      → execute hash job_id block_order work_order src dst o acts r
        ≡ execute hash job_id block_order work_order src dst o (without_deletes acts) r
  execute-Fails acts r f =
      execute-without_deletes hash job_id block_order work_order src dst o acts r
        (Fails-Recorded acts r f)
