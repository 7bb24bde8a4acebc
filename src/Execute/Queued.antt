-- ===== src/Execute/Queued.antt =====
-- The queues that the first loop of `Execute` fills, with and without the plan's deletions.
use vextra.Base.{ℕ, ◌≡◌, refl, sym, ap, ◌∙◌, Bool, true, false, List, [], ◌∷◌, if◌then◌else◌, Text}
use vextra.Base.Int.{ℤ}
use vextra.Base.Result.{Result, ok, err, M, ◌>>=◌}
use vextra.Plan.{ActKind, act_mkdir, act_file, act_link, act_meta, act_delete, Action, Options}
use vextra.Fs.{Fs}
use vextra.Engine.{Run, is_dir}
use vextra.Execute.{queue_dir, Queues, add_touch, add_meta, add_fail, make_dir, enqueue, first_pass}

unfoldable pub is_kept : ActKind → Bool
is_kept act_delete = false
is_kept _ = true

abbrev pub drop_dels : Queues → Queues
drop_dels q = record q { dels = [] }

unfoldable pub forget : {S : Type 0} → Result Queues × Run S → Result Queues × Run S
forget (ok q, r) = (ok (drop_dels q), r)
forget (err e, r) = (err e, r)

unfoldable pub without_deletes : List Action → List Action
without_deletes [] = []
without_deletes (a ∷ acts) =
    let rest = without_deletes acts in if is_kept a.kind then a ∷ rest else rest

queue_dir-forget :
    {S : Type 0} (a : Action) (q : Queues) (x : Result (Unit {0})) (r : Run S)
    → queue_dir a (drop_dels q) x r ≡ forget (queue_dir a q x r)
unfolding queue_dir forget add_fail
queue_dir-forget a q (ok u) r = refl
queue_dir-forget a q (err e) r = refl

meta-forget :
    {S : Type 0} (a : Action) (q : Queues) (b : Bool) (r : Run S)
    → (ok (if b then add_touch a (drop_dels q) else add_meta a (drop_dels q)), r)
      ≡ forget (ok (if b then add_touch a q else add_meta a q), r)
unfolding forget
meta-forget a q true r = refl
meta-forget a q false r = refl

module _ (hash : Text → Text) (job_id : Text → ℕ → ℤ → Bool → Text) (block_order : List ℕ → List ℕ)
    (work_order : List Action → List Action) {S H K : Type 0} (src : Fs S H) (dst : Fs S K)
    (o : Options) where
  enqueue-forget :
      (k : ActKind) (a : Action) (q : Queues) (r : Run S)
      → is_kept k ≡ true
      → enqueue hash job_id block_order work_order src dst o k a (drop_dels q) r
        ≡ forget (enqueue hash job_id block_order work_order src dst o k a q r)
  unfolding enqueue forget add_fail is_kept
  enqueue-forget act_mkdir a q r h =
      let m = make_dir hash job_id block_order work_order src dst o a r in
      queue_dir-forget a q (m.0) (m.1)
  enqueue-forget act_file a q r h = refl
  enqueue-forget act_link a q r h = refl
  enqueue-forget act_meta a q r h = meta-forget a q (is_dir a.src) r
  enqueue-forget act_delete a q r h = cc h

  enqueue-delete :
      (k : ActKind) (a : Action) (q : Queues) (r : Run S)
      → is_kept k ≡ false
      → forget (enqueue hash job_id block_order work_order src dst o k a q r)
        ≡ (ok (drop_dels q), r)
  unfolding enqueue forget is_kept
  enqueue-delete act_mkdir a q r h = cc h
  enqueue-delete act_file a q r h = cc h
  enqueue-delete act_link a q r h = cc h
  enqueue-delete act_meta a q r h = cc h
  enqueue-delete act_delete a q r h = refl

  abbrev fill : List Action → Queues → M (Run S) Queues
  fill = first_pass hash job_id block_order work_order src dst o

  continue-forget :
      (rest acts : List Action)
      → ((q : Queues) (r : Run S) → fill rest (drop_dels q) r ≡ forget (fill acts q r))
      → (x : Result Queues × Run S)
      → ◌>>=◌ (λ (r : Run S). forget x) (fill rest) x.1
        ≡ forget (◌>>=◌ (λ (r : Run S). x) (fill acts) x.1)
  unfolding forget
  continue-forget rest acts ih (ok q, r) = ih q r
  continue-forget rest acts ih (err e, r) = refl

  pub first_pass-forget :
      (acts : List Action) (q : Queues) (r : Run S)
      → fill (without_deletes acts) (drop_dels q) r ≡ forget (fill acts q r)
  unfolding first_pass without_deletes forget
  first_pass-forget [] q r = refl
  first_pass-forget (a ∷ acts) q r = go (first_pass-forget acts) (is_kept a.kind) refl
    where
      x : Result Queues × Run S
      x = enqueue hash job_id block_order work_order src dst o a.kind a q r

      go :
          ((q : Queues) (r : Run S)
            → fill (without_deletes acts) (drop_dels q) r ≡ forget (fill acts q r))
          → (b : Bool) → is_kept a.kind ≡ b
          → fill (if b then a ∷ without_deletes acts else without_deletes acts) (drop_dels q) r
            ≡ forget (◌>>=◌ (λ (t : Run S). x) (fill acts) x.1)
      go ih true h =
          ap (λ y. ◌>>=◌ (λ (t : Run S). y) (fill (without_deletes acts)) r)
            (enqueue-forget a.kind a q r h)
          ∙ continue-forget (without_deletes acts) acts ih x
      go ih false h =
          ap (λ y. ◌>>=◌ (λ (t : Run S). y) (fill (without_deletes acts)) r)
            (sym (enqueue-delete a.kind a q r h))
          ∙ continue-forget (without_deletes acts) acts ih x
