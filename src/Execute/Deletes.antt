-- ===== src/Execute/Deletes.antt =====
-- The deletions of `Execute`, after failures of what came before them.
use vextra.Base.{ℕ, ◌≡◌, refl, sym, ap, ◌∙◌, ◌≢◌, Bool, true, List, [], ◌∷◌, Text}
use vextra.Base.Int.{ℤ}
use vextra.Base.Result.{Result, ok, err, M, ◌>>=◌, pure}
use vextra.Plan.{Action, Options}
use vextra.Fs.{Fs}
use vextra.Engine.{Run}
use vextra.Execute.{
  is_nonempty, Queues, no_queues, is_nonempty, has_fails, run_queues, apply_changes,
  delete_and_touch, execute, first_pass,
}
use vextra.Execute.Queued.{drop_dels, forget, without_deletes, first_pass-forget}

is_nonempty_lem : {A : Type 0} (xs : List A) → xs ≢ [] → is_nonempty xs ≡ true
unfolding is_nonempty
is_nonempty_lem [] h = absurd (h refl)
is_nonempty_lem (x ∷ xs) h = refl

module _ (hash : Text → Text) (job_id : Text → ℕ → ℤ → Bool → Text) (block_order : List ℕ → List ℕ)
    (work_order : List Action → List Action) {S H K : Type 0} (src : Fs S H) (dst : Fs S K)
    (o : Options) where
  after_queues-forget :
      (q : Queues) (x : Result (Unit {0}) × Run S)
      → ◌>>=◌ (λ (t : Run S). x) (λ _. pure (drop_dels q)) x.1
        ≡ forget (◌>>=◌ (λ (t : Run S). x) (λ _. pure q) x.1)
  unfolding forget
  after_queues-forget q (ok u, r) = refl
  after_queues-forget q (err e, r) = refl

  abbrev finish_queues : Queues → M (Run S) Queues
  finish_queues q = run_queues hash job_id block_order work_order src dst o q >>= λ _. pure q

  finish_queues-forget :
      (q : Queues) (r : Run S) → finish_queues (drop_dels q) r ≡ forget (finish_queues q r)
  unfolding run_queues
  finish_queues-forget q r =
      after_queues-forget q (run_queues hash job_id block_order work_order src dst o q r)

  continue-forget :
      (x : Result Queues × Run S)
      → ◌>>=◌ (λ (t : Run S). forget x) finish_queues x.1
        ≡ forget (◌>>=◌ (λ (t : Run S). x) finish_queues x.1)
  unfolding forget
  continue-forget (ok q, r) = finish_queues-forget q r
  continue-forget (err e, r) = refl

  abbrev changes : List Action → M (Run S) Queues
  changes = apply_changes hash job_id block_order work_order src dst o

  apply_changes-forget :
      (acts : List Action) (r : Run S) → changes (without_deletes acts) r ≡ forget (changes acts r)
  unfolding apply_changes
  apply_changes-forget acts r =
      ap (λ y. ◌>>=◌ (λ (t : Run S). y) finish_queues r)
        (first_pass-forget hash job_id block_order work_order src dst o acts no_queues r)
      ∙ continue-forget (first_pass hash job_id block_order work_order src dst o acts no_queues r)

  abbrev rest : Queues → M (Run S) (Unit {0})
  rest = delete_and_touch hash job_id block_order work_order src dst o

  delete_and_touch-forget :
      (x : Result Queues × Run S)
      → x.1.fails ≢ []
      → ◌>>=◌ (λ (t : Run S). forget x) rest x.1 ≡ ◌>>=◌ (λ (t : Run S). x) rest x.1
  unfolding forget delete_and_touch has_fails
  delete_and_touch-forget (ok q, r) h = rw (is_nonempty_lem r.fails h)
  delete_and_touch-forget (err e, r) h = refl

  -- If failures are recorded behind all that comes before the deletions, the execution of a plan does
  -- what the execution of the same plan without its deletions does, with the same result.
  pub execute-without_deletes :
      (acts : List Action) (r : Run S)
      → (changes acts r).1.fails ≢ []
      → execute hash job_id block_order work_order src dst o acts r
        ≡ execute hash job_id block_order work_order src dst o (without_deletes acts) r
  unfolding execute
  execute-without_deletes acts r h =
      sym (delete_and_touch-forget (changes acts r) h)
      ∙ ap (λ y. ◌>>=◌ (λ (t : Run S). y) rest r) (sym (apply_changes-forget acts r))
