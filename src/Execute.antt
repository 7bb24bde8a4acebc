-- ===== src/Execute.antt =====
-- `Execute` of engine.go over the transfers of Engine. The work items run one after another, in an
-- order that a parameter chooses: the source's workers take them from a channel.
pub mod Queued
pub mod Deletes
pub mod Failed
pub mod Spared
use vextra.Base.{ℕ, ◌+◌, Bool, true, false, List, [], ◌∷◌, ◌++◌, if◌then◌else◌, Text}
use vextra.Base.Int.{ℤ, pos}
use vextra.Base.Result.{Err, Result, ok, err, M, ◌>>=◌, ◌>>◌, pure, raise, attempt}
use vextra.Plan.{ActKind, act_mkdir, act_file, act_link, act_meta, act_delete, Action, Options}
use vextra.Fs.{Fs}
use vextra.Engine.{
  Run, on, tally, display_name, mode_of, mtime_of, is_dir, unless_missing, clear_way, do_action,
}

-- The four lists that the first loop of `Execute` fills.
pub record Queues : Type 0 where
  pub work : List Action
  pub metas : List Action
  pub dels : List Action
  pub touch : List Action

-- `addFail`
unfoldable pub add_fail : {S : Type 0} → Action → Err → M (Run S) (Unit {0})
add_fail a e r = (
  ok tt,
  record r {
    fails = r.fails ++ ((display_name a, e) ∷ []);
    stats = record r.stats { failed = r.stats.failed + 1 };
  },
)

-- `len(fails) > 0`
unfoldable pub is_nonempty : {A : Type 0} → List A → Bool
is_nonempty [] = false
is_nonempty (x ∷ xs) = true

unfoldable pub has_fails : {S : Type 0} → M (Run S) Bool
has_fails r = (ok (is_nonempty r.fails), r)

-- `errors.Is(err, ErrConn)`
unfoldable pub is_conn : Err → Bool
is_conn Err.conn = true
is_conn _ = false

abbrev pub no_queues : Queues
no_queues = record { work = []; metas = []; dels = []; touch = [] }

abbrev pub add_touch : Action → Queues → Queues
add_touch a q = record q { touch = q.touch ++ (a ∷ []) }

abbrev pub add_work : Action → Queues → Queues
add_work a q = record q { work = q.work ++ (a ∷ []) }

abbrev pub add_meta : Action → Queues → Queues
add_meta a q = record q { metas = q.metas ++ (a ∷ []) }

abbrev pub add_del : Action → Queues → Queues
add_del a q = record q { dels = q.dels ++ (a ∷ []) }

-- Records the failure of a computation, and goes on.
unfoldable pub or_fail : {S : Type 0} → Action → M (Run S) (Unit {0}) → M (Run S) (Unit {0})
or_fail a m = attempt m >>= λ r. elim r [ ok u ↦ pure tt | err e ↦ add_fail a e ]

unfoldable pub each :
    {S : Type 0} → (Action → M (Run S) (Unit {0})) → List Action → M (Run S) (Unit {0})
each f [] = pure tt
each f (a ∷ acts) = f a >>= λ _. each f acts

-- The end of the case `ActMkdir`: the date of a directory is set at the end.
unfoldable pub queue_dir : {S : Type 0} → Action → Queues → Result (Unit {0}) → M (Run S) Queues
queue_dir a q (ok u) = pure (add_touch a q)
queue_dir a q (err e) = add_fail a e >>= λ _. pure q

module _ (hash : Text → Text) (job_id : Text → ℕ → ℤ → Bool → Text) (block_order : List ℕ → List ℕ)
    (work_order : List Action → List Action) {S H K : Type 0} (src : Fs S H) (dst : Fs S K)
    (o : Options) where
  abbrev pub E : Type 0 → Type 0
  E = M (Run S)

  -- The case `ActMkdir`.
  unfoldable pub make_dir : Action → E (Unit {0})
  make_dir a = do
    clear_way hash job_id block_order src dst o a.replace a
    on (dst.mkdir a.dst_path (mode_of a.src))
    tally (λ s. record s { dirs = s.dirs + 1 })

  -- The first loop's body.
  unfoldable pub enqueue : ActKind → Action → Queues → E Queues
  enqueue act_mkdir a q = attempt (make_dir a) >>= queue_dir a q
  enqueue act_file a q = pure (add_work a q)
  enqueue act_link a q = pure (add_work a q)
  enqueue act_meta a q = pure (if is_dir a.src then add_touch a q else add_meta a q)
  enqueue act_delete a q = pure (add_del a q)

  unfoldable pub first_pass : List Action → Queues → E Queues
  first_pass [] q = pure q
  first_pass (a ∷ acts) q = enqueue a.kind a q >>= first_pass acts

  -- A worker's turn: nothing after an abort.
  unfoldable pub take_job : Action → Bool → E Bool
  take_job a true = pure true
  take_job a false = attempt (do_action hash job_id block_order src dst o a) >>= λ r. elim r [
    | ok u ↦ pure false
    | err e ↦ (add_fail a e >>= λ _. pure (is_conn e))
  ]

  unfoldable pub do_work : List Action → Bool → E Bool
  do_work [] aborted = pure aborted
  do_work (a ∷ acts) aborted = take_job a aborted >>= do_work acts

  abbrev set_mode : Action → E (Unit {0})
  set_mode a = or_fail a (on (dst.set_meta a.dst_path (mode_of a.src) (pos 0)))

  unfoldable pub remove_one : Action → E (Unit {0})
  remove_one a = or_fail a (do
    r ← attempt (on (dst.remove a.dst_path (is_dir a.dst)))
    unless_missing r
    tally (λ s. record s { deleted = s.deleted + 1 }))

  unfoldable pub touch_one : Action → E (Unit {0})
  touch_one a = or_fail a (on (dst.set_meta a.dst_path (mode_of a.src) (mtime_of a.src)))

  -- The workers, and the permissions of the files.
  unfoldable pub run_queues : Queues → E (Unit {0})
  run_queues q = do
    aborted ← do_work (work_order q.work) false
    (if aborted then raise Err.conn else pure tt)
    each set_mode q.metas

  -- All that comes before the deletions.
  unfoldable pub apply_changes : List Action → E Queues
  apply_changes acts = do q ← first_pass acts no_queues; run_queues q; pure q

  -- The deletions, and all that follows them.
  unfoldable pub delete_and_touch : Queues → E (Unit {0})
  delete_and_touch q = do
    failed ← has_fails
    (if failed then pure tt else each remove_one q.dels)
    each touch_one q.touch
    partial ← has_fails
    (if partial then raise Err.partial_failure else pure tt)

  -- `Execute`
  unfoldable pub execute : List Action → E (Unit {0})
  execute acts = apply_changes acts >>= delete_and_touch
