-- ===== src/Execute/Failed.antt =====
-- A failure of what comes before the deletions of `Execute` is recorded, and stays so.
use vextra.Base.{ℕ, ◌+◌, ◌≡◌, ◌≢◌, Bool, true, false, List, [], ◌∷◌, ◌++◌, Text}
use vextra.Base.Int.{ℤ, pos}
use vextra.Base.Result.{Err, Result, ok, err, M, ◌>>=◌, pure, attempt}
use vextra.Base.Keeps.{Keeps, Keeps-pure, Keeps-attempt, Keeps-bind}
use vextra.Plan.{ActKind, act_mkdir, act_file, act_link, act_meta, act_delete, Action, Options}
use vextra.Fs.{Fs}
use vextra.Engine.{Run, on, mode_of, clear_way, do_action}
use vextra.Engine.Kept.{HasFails, on-Kept, tally-Kept, clear_way-Kept, do_action-Kept}
use vextra.Execute.{
  Queues, no_queues, add_touch, add_fail, or_fail, each, queue_dir, make_dir, enqueue, first_pass,
  take_job, do_work, set_mode, is_conn,
}

snoc-nonempty : {A : Type 0} (xs : List A) (x : A) → xs ++ (x ∷ []) ≢ []
snoc-nonempty [] x h = cc h
snoc-nonempty (y ∷ xs) x h = cc h

module _ (hash : Text → Text) (job_id : Text → ℕ → ℤ → Bool → Text) (block_order : List ℕ → List ℕ)
    (work_order : List Action → List Action) {S H K : Type 0} (src : Fs S H) (dst : Fs S K)
    (o : Options) where
  abbrev pub Recorded : Run S → Type 0
  Recorded = HasFails hash job_id block_order src dst o

  abbrev pub job : Action → M (Run S) (Unit {0})
  job = do_action hash job_id block_order src dst o

  abbrev pub dir_made : Action → M (Run S) (Unit {0})
  dir_made = make_dir hash job_id block_order work_order src dst o

  abbrev pub queued : ActKind → Action → Queues → M (Run S) Queues
  queued = enqueue hash job_id block_order work_order src dst o

  abbrev pub pass : List Action → Queues → M (Run S) Queues
  pass = first_pass hash job_id block_order work_order src dst o

  abbrev pub turn : Action → Bool → M (Run S) Bool
  turn = take_job hash job_id block_order work_order src dst o

  abbrev pub work : List Action → Bool → M (Run S) Bool
  work = do_work hash job_id block_order work_order src dst o

  abbrev pub mode_set : Action → M (Run S) (Unit {0})
  mode_set = set_mode hash job_id block_order work_order src dst o

  abbrev pub mode_call : Action → M (Run S) (Unit {0})
  mode_call a = on (dst.set_meta a.dst_path (mode_of a.src) (pos 0))

  -- In the first loop, some directory cannot be made.
  pub data DirFails : List Action → Queues → Run S → Type 0 where
    dir_here :
        (a : Action) (acts : List Action) (q : Queues) (r : Run S) (e : Err)
        → a.kind ≡ act_mkdir
        → (dir_made a r).0 ≡ err e
        → DirFails (a ∷ acts) q r
    dir_later :
        (a : Action) (acts : List Action) (q q' : Queues) (r r' : Run S)
        → queued a.kind a q r ≡ (ok q', r')
        → DirFails acts q' r'
        → DirFails (a ∷ acts) q r

  -- Among the jobs of the workers, some transfer or link fails.
  pub data JobFails : List Action → Bool → Run S → Type 0 where
    job_here :
        (a : Action) (acts : List Action) (r : Run S) (e : Err)
        → (job a r).0 ≡ err e
        → JobFails (a ∷ acts) false r
    job_later :
        (a : Action) (acts : List Action) (b b' : Bool) (r r' : Run S)
        → turn a b r ≡ (ok b', r')
        → JobFails acts b' r'
        → JobFails (a ∷ acts) b r

  -- Some permission cannot be set.
  pub data ModeFails : List Action → Run S → Type 0 where
    mode_here :
        (a : Action) (acts : List Action) (r : Run S) (e : Err)
        → (mode_call a r).0 ≡ err e
        → ModeFails (a ∷ acts) r
    mode_later :
        (a : Action) (acts : List Action) (r r' : Run S)
        → mode_set a r ≡ (ok tt, r')
        → ModeFails acts r'
        → ModeFails (a ∷ acts) r

  -- Something fails before the deletions.
  pub data Fails (acts : List Action) (r : Run S) : Type 0 where
    dirs : DirFails acts no_queues r → Fails acts r
    jobs :
        (q : Queues) (r' : Run S)
        → pass acts no_queues r ≡ (ok q, r')
        → JobFails (work_order q.work) false r'
        → Fails acts r
    modes :
        (q : Queues) (r' r'' : Run S)
        → pass acts no_queues r ≡ (ok q, r')
        → work (work_order q.work) false r' ≡ (ok false, r'')
        → ModeFails q.metas r''
        → Fails acts r

  pub add_fail-Recorded : (a : Action) (e : Err) (r : Run S) → Recorded (add_fail a e r).1
  unfolding add_fail
  add_fail-Recorded a e r = snoc-nonempty r.fails _

  add_fail-Keeps : (a : Action) (e : Err) → Keeps Recorded (add_fail a e)
  add_fail-Keeps a e = record { at = λ r h. add_fail-Recorded a e r }

  queue_dir-Keeps :
      (a : Action) (q : Queues) (x : Result (Unit {0})) → Keeps Recorded (queue_dir a q x)
  unfolding queue_dir
  queue_dir-Keeps a q (ok u) = Keeps-pure (add_touch a q)
  queue_dir-Keeps a q (err e) = Keeps-bind (add_fail a e) _ (add_fail-Keeps a e) λ u. Keeps-pure q

  make_dir-Keeps : (a : Action) → Keeps Recorded (dir_made a)
  unfolding make_dir
  make_dir-Keeps a =
      Keeps-bind (clear_way hash job_id block_order src dst o a.replace a) _
        (clear_way-Kept hash job_id block_order src dst o a.replace a)
        λ u.
          Keeps-bind (on (dst.mkdir a.dst_path (mode_of a.src))) _
            (on-Kept hash job_id block_order src dst o (dst.mkdir a.dst_path (mode_of a.src)))
            λ v. tally-Kept hash job_id block_order src dst o (λ s. record s { dirs = s.dirs + 1 })

  enqueue-Keeps : (k : ActKind) (a : Action) (q : Queues) → Keeps Recorded (queued k a q)
  unfolding enqueue
  enqueue-Keeps act_mkdir a q =
      Keeps-bind (attempt (dir_made a)) (queue_dir a q)
        (Keeps-attempt (dir_made a) (make_dir-Keeps a)) (queue_dir-Keeps a q)
  enqueue-Keeps act_file a q = Keeps-pure _
  enqueue-Keeps act_link a q = Keeps-pure _
  enqueue-Keeps act_meta a q = Keeps-pure _
  enqueue-Keeps act_delete a q = Keeps-pure _

  pub first_pass-Keeps : (acts : List Action) (q : Queues) → Keeps Recorded (pass acts q)
  unfolding first_pass
  first_pass-Keeps [] q = Keeps-pure q
  first_pass-Keeps (a ∷ acts) q =
      Keeps-bind (queued a.kind a q) (pass acts) (enqueue-Keeps a.kind a q) (first_pass-Keeps acts)

  -- The end of a worker's turn.
  abbrev pub turn_end : Action → Result (Unit {0}) → M (Run S) Bool
  turn_end a x = elim x [ ok u ↦ pure false | err e ↦ (add_fail a e >>= λ _. pure (is_conn e)) ]

  turn_end-Keeps : (a : Action) (x : Result (Unit {0})) → Keeps Recorded (turn_end a x)
  turn_end-Keeps a (ok u) = Keeps-pure false
  turn_end-Keeps a (err e) =
      Keeps-bind (add_fail a e) _ (add_fail-Keeps a e) λ u. Keeps-pure (is_conn e)

  take_job-Keeps : (a : Action) (b : Bool) → Keeps Recorded (turn a b)
  unfolding take_job
  take_job-Keeps a true = Keeps-pure true
  take_job-Keeps a false =
      Keeps-bind (attempt (job a)) (turn_end a)
        (Keeps-attempt (job a) (do_action-Kept hash job_id block_order src dst o a))
        (turn_end-Keeps a)

  pub do_work-Keeps : (acts : List Action) (b : Bool) → Keeps Recorded (work acts b)
  unfolding do_work
  do_work-Keeps [] b = Keeps-pure b
  do_work-Keeps (a ∷ acts) b =
      Keeps-bind (turn a b) (work acts) (take_job-Keeps a b) (do_work-Keeps acts)

  -- The end of setting the permissions of a file.
  abbrev pub mode_end : Action → Result (Unit {0}) → M (Run S) (Unit {0})
  mode_end a x = elim x [ ok u ↦ pure tt | err e ↦ add_fail a e ]

  mode_end-Keeps : (a : Action) (x : Result (Unit {0})) → Keeps Recorded (mode_end a x)
  mode_end-Keeps a (ok u) = Keeps-pure tt
  mode_end-Keeps a (err e) = add_fail-Keeps a e

  set_mode-Keeps : (a : Action) → Keeps Recorded (mode_set a)
  unfolding or_fail
  set_mode-Keeps a =
      Keeps-bind (attempt (mode_call a)) (mode_end a)
        (Keeps-attempt (mode_call a) (
          on-Kept hash job_id block_order src dst o
            (dst.set_meta a.dst_path (mode_of a.src) (pos 0))))
        (mode_end-Keeps a)

  pub set_modes-Keeps : (acts : List Action) → Keeps Recorded (each mode_set acts)
  unfolding each
  set_modes-Keeps [] = Keeps-pure tt
  set_modes-Keeps (a ∷ acts) =
      Keeps-bind (mode_set a) (λ _. each mode_set acts) (set_mode-Keeps a)
        (λ u. set_modes-Keeps acts)
