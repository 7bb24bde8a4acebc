-- ===== src/Engine/Kept.antt =====
-- What the engine does to an action leaves recorded failures alone.
use vextra.Base.{
  ℕ, ◌+◌, ◌*◌, ◌≢◌, Bool, true, false, not, ◌&&◌, ◌||◌, List, [], ◌∷◌, ltb, leb, ◌==◌,
  if◌then◌else◌, length, Text, text_eq,
}
use vextra.Base.Int.{ℤ, pos, ◌-ℤ◌, eqb_ℤ}
use vextra.Base.Result.{Err, Result, ok, err, M, ◌>>=◌, pure, raise, attempt}
use vextra.Base.Keeps.{Keeps, Keeps-pure, Keeps-raise, Keeps-attempt, Keeps-if, Keeps-bind}
use vextra.Path.{dot, dir}
use vextra.Delta.{Sigs, min_ℤ, block_size_for, diff_blocks}
use vextra.Plan.{
  ActKind, act_mkdir, act_file, act_link, act_meta, act_delete, Action, Options, size_of,
}
use vextra.Build.{is_not_exist}
use vextra.Fs.{Fs}
use vextra.Engine.{
  Run, Stats, on, tally, mode_of, mtime_of, link_of, is_final, same_content, count_same,
  unless_missing, both_sigs, has_dst, load_sigs, check_source, or_abort, count_transfer, read_small,
  transfer_small, send_block, send_blocks, send_delta, transfer_large, clear_way, transfer_file,
  do_action,
}

module _ (hash : Text → Text) (job_id : Text → ℕ → ℤ → Bool → Text) (block_order : List ℕ → List ℕ)
    {S H K : Type 0} (src : Fs S H) (dst : Fs S K) (o : Options) where
  abbrev pub HasFails : Run S → Type 0
  HasFails r = r.fails ≢ []

  abbrev pub Kept : {A : Type 0} → M (Run S) A → Type 0
  Kept = Keeps HasFails

  pub on-Kept : {A : Type 0} (m : M S A) → Kept (on m)
  on-Kept m = record { at = λ r h. h }

  pub tally-Kept : (f : Stats → Stats) → Kept (tally f)
  tally-Kept f = record { at = λ r h. h }

  both_sigs-Kept : (s d : Result Sigs) → Kept (both_sigs s d)
  both_sigs-Kept (err e) d = Keeps-raise e
  both_sigs-Kept (ok s) (err e) = Keeps-raise e
  both_sigs-Kept (ok s) (ok d) = Keeps-pure (s, d)

  load_sigs-Kept :
      (a : Action) (job : Text) (bs : ℕ)
      → Kept (load_sigs hash job_id block_order src dst o a job bs)
  unfolding load_sigs
  load_sigs-Kept a job bs =
      Keeps-bind (attempt (on (dst.sigs a.dst_path job (pos bs)))) _ (Keeps-attempt _ (on-Kept _))
        λ d.
          Keeps-bind (attempt (on (src.sigs a.src_path [] (pos bs)))) (λ s. both_sigs s d)
            (Keeps-attempt _ (on-Kept _)) λ s. both_sigs-Kept s d

  or_abort-Kept :
      (m : M (Run S) (Unit {0})) (w : K)
      → Kept m
      → Kept (or_abort hash job_id block_order src dst o m w)
  unfolding or_abort
  or_abort-Kept m w k = Keeps-bind (attempt m) _ (Keeps-attempt m k) λ r. ending r
    where
      ending :
          (r : Result (Unit {0}))
          → Kept (elim r as (λ _. M (Run S) (Unit {0})) [
            | ok u ↦ pure tt
            | err e ↦ (on (λ s. (ok tt, dst.abort w s)) >>= λ _. raise e)
          ])
      ending (ok u) = Keeps-pure tt
      ending (err e) =
          Keeps-bind (on (λ s. (ok tt, dst.abort w s))) (λ u. raise e)
            (on-Kept (λ s. (ok tt, dst.abort w s))) λ u. Keeps-raise e

  pub clear_way-Kept :
      (wanted : Bool) (a : Action) → Kept (clear_way hash job_id block_order src dst o wanted a)
  unfolding clear_way unless_missing
  clear_way-Kept wanted a =
      Keeps-if (wanted && has_dst a) _ _
        (Keeps-bind (attempt (on (dst.remove a.dst_path true))) unless_missing
          (Keeps-attempt _ (on-Kept _)) passed)
        (Keeps-pure tt)
    where
      passed : (r : Result (Unit {0})) → Kept (unless_missing r)
      passed (ok u) = Keeps-pure tt
      passed (err e) = Keeps-if (is_not_exist e) _ _ (Keeps-pure tt) (Keeps-raise e)

  transfer_small-Kept :
      (a : Action) (job : Text) → Kept (transfer_small hash job_id block_order src dst o a job)
  unfolding transfer_small read_small
  transfer_small-Kept a job =
      let size = size_of a.src in
      Keeps-bind (read_small hash job_id block_order src dst o a size) _
        (Keeps-if (ltb 0 size) _ _
          (Keeps-bind (on (src.read_at a.src_path (pos 0) (pos size))) _ (on-Kept _)
            λ d. Keeps-if (length d == size) _ _ (Keeps-pure d) (Keeps-raise Err.verify))
          (Keeps-pure []))
        λ c. Keeps-bind (on (dst.begin a.dst_path job (pos size) false)) _ (on-Kept _) λ w.
          Keeps-bind _ _ (Keeps-if (ltb 0 size) _ _ (or_abort-Kept _ w (on-Kept _)) (Keeps-pure tt))
            λ u.
              Keeps-bind (on (dst.commit w (hash c) (mode_of a.src) (mtime_of a.src))) _ (on-Kept _)
                λ v. tally-Kept (count_transfer a (pos size) (pos 0))

  send_block-Kept :
      (a : Action) (bs size : ℕ) (w : K) (i : ℕ)
      → Kept (send_block hash job_id block_order src dst o a bs size w i)
  unfolding send_block
  send_block-Kept a bs size w i =
      let n = min_ℤ (pos bs) (pos size -ℤ pos (i * bs)) in
      Keeps-bind (on (src.read_at a.src_path (pos (i * bs)) n)) _ (on-Kept _) λ c.
        Keeps-bind _ _
          (Keeps-if (eqb_ℤ (pos (length c)) n) _ _ (Keeps-pure tt) (Keeps-raise Err.verify))
          λ u. on-Kept (dst.write_at w c (pos (i * bs)))

  send_blocks-Kept :
      (a : Action) (bs size : ℕ) (w : K) (is : List ℕ)
      → Kept (send_blocks hash job_id block_order src dst o a bs size w is)
  unfolding send_blocks
  send_blocks-Kept a bs size w [] = Keeps-pure tt
  send_blocks-Kept a bs size w (i ∷ is) =
      Keeps-bind (send_block hash job_id block_order src dst o a bs size w i) _
        (send_block-Kept a bs size w i) λ u. send_blocks-Kept a bs size w is

  send_delta-Kept :
      (a : Action) (job : Text) (bs : ℕ) (ss ds : Sigs) (delta : List ℕ × ℤ)
      → Kept (send_delta hash job_id block_order src dst o a job bs ss ds delta)
  unfolding send_delta
  send_delta-Kept a job bs ss ds (changed, total) =
      Keeps-bind (on (dst.begin a.dst_path job (pos (size_of a.src)) (is_final ds))) _ (on-Kept _)
        λ w.
          Keeps-bind
            (or_abort hash job_id block_order src dst o
              (send_blocks hash job_id block_order src dst o a bs (size_of a.src) w
                (block_order changed))
              w)
            _ (or_abort-Kept _ w (send_blocks-Kept a bs (size_of a.src) w (block_order changed)))
            λ u.
              Keeps-bind (on (dst.commit w ss.hash (mode_of a.src) (mtime_of a.src))) _ (on-Kept _)
                λ v. tally-Kept (count_transfer a total (pos (size_of a.src) -ℤ total))

  transfer_large-Kept :
      (a : Action) (job : Text) → Kept (transfer_large hash job_id block_order src dst o a job)
  unfolding transfer_large
  transfer_large-Kept a job =
      let size = size_of a.src in
      let bs = block_size_for size o.block_size in
      Keeps-bind (load_sigs hash job_id block_order src dst o a job bs) _ (load_sigs-Kept a job bs)
        λ pair.
          Keeps-bind (check_source hash job_id block_order src dst o (pair.0) size) _
            (Keeps-if (not pair.0.exists || not (eqb_ℤ pair.0.size (pos size))) _ _
              (Keeps-raise Err.verify) (Keeps-pure tt))
            λ u.
              let delta = diff_blocks (pair.0) (pair.1) bs size in
              Keeps-if (same_content (delta.0) (pair.1) size) _ _
                (Keeps-bind (on (dst.set_meta a.dst_path (mode_of a.src) (mtime_of a.src))) _
                  (on-Kept _) λ v. tally-Kept (count_same hash job_id block_order src dst o size))
                (send_delta-Kept a job bs (pair.0) (pair.1) delta)

  transfer_file-Kept : (a : Action) → Kept (transfer_file hash job_id block_order src dst o a)
  unfolding transfer_file
  transfer_file-Kept a =
      let job = job_id a.dst_path (size_of a.src) (mtime_of a.src) o.resume in
      Keeps-bind (clear_way hash job_id block_order src dst o a.replace a) _
        (clear_way-Kept a.replace a)
        λ u1.
          Keeps-bind (if text_eq a.rel dot then on (dst.mkdir (dir a.dst_path) 493) else pure tt) _
            (Keeps-if (text_eq a.rel dot) _ _ (on-Kept _) (Keeps-pure tt))
            λ u2.
              Keeps-bind
                (if leb (size_of a.src) o.small_file
                  then transfer_small hash job_id block_order src dst o a job
                  else transfer_large hash job_id block_order src dst o a job)
                _
                (Keeps-if (leb (size_of a.src) o.small_file) _ _ (transfer_small-Kept a job)
                  (transfer_large-Kept a job))
                λ u3. tally-Kept (λ s. record s { file_bytes = s.file_bytes + size_of a.src })

  pub do_action-Kept : (a : Action) → Kept (do_action hash job_id block_order src dst o a)
  unfolding do_action
  do_action-Kept a = go a.kind
    where
      go :
          (k : ActKind)
          → Kept (elim k as (λ _. M (Run S) (Unit {0})) [
            | act_link ↦ clear_way hash job_id block_order src dst o true a >>= λ u.
                on (dst.symlink (link_of a.src) a.dst_path) >>= λ v.
                tally (λ s. record s { links = s.links + 1 })
            | act_file ↦ transfer_file hash job_id block_order src dst o a
            | _ ↦ pure tt
          ])
      go act_link =
          Keeps-bind (clear_way hash job_id block_order src dst o true a) _ (clear_way-Kept true a)
            λ u.
              Keeps-bind (on (dst.symlink (link_of a.src) a.dst_path)) _ (on-Kept _)
                λ v. tally-Kept (λ s. record s { links = s.links + 1 })
      go act_file = transfer_file-Kept a
      go act_mkdir = Keeps-pure tt
      go act_meta = Keeps-pure tt
      go act_delete = Keeps-pure tt
