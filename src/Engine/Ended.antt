-- ===== src/Engine/Ended.antt =====
-- How a transfer that succeeds has ended.
use vextra.Base.{ℕ, ◌+◌, ◌≡◌, ◌⊎◌, inl, inr, Bool, List, leb, if◌then◌else◌, Text, text_eq}
use vextra.Base.Int.{ℤ}
use vextra.Base.Result.{ok, pure}
use vextra.Base.Gives.{Gives-any}
use vextra.Base.Ends.{Ends, Ends-bind, Ends-if, Ends-mono, Ends-ok}
use vextra.Path.{dot, dir}
use vextra.Fs.{Fs}
use vextra.Plan.{Action, Options, size_of}
use vextra.Engine.{Run, on, mtime_of, transfer_small, transfer_large, clear_way, transfer_file}
use vextra.Engine.Small.{Ends-tally, SmallDone, SmallDone-Ends}
use vextra.Engine.Large.{LargeDone, LargeDone-Ends}

module _ (hash : Text → Text) (job_id : Text → ℕ → ℤ → Bool → Text) (block_order : List ℕ → List ℕ)
    {S H K : Type 0} (src : Fs S H) (dst : Fs S K) (o : Options) (a : Action) where
  -- A transfer that succeeds has ended as one of a small or of a large file.
  transfer_file-Ends :
      Ends
        (λ u r.
          SmallDone hash job_id block_order src dst o a
            (job_id a.dst_path (size_of a.src) (mtime_of a.src) o.resume)
            r.world
          ⊎ LargeDone hash job_id block_order src dst o a
              (job_id a.dst_path (size_of a.src) (mtime_of a.src) o.resume)
              r.world)
        (transfer_file hash job_id block_order src dst o a)
  unfolding transfer_file
  transfer_file-Ends =
      let job = job_id a.dst_path (size_of a.src) (mtime_of a.src) o.resume in
      Ends-bind (clear_way hash job_id block_order src dst o a.replace a) _ (Gives-any _) λ u1 v1.
        Ends-bind (if text_eq a.rel dot then on (dst.mkdir (dir a.dst_path) 493) else pure tt) _
          (Gives-any _)
          λ u2 v2.
            Ends-tally
              (λ w.
                SmallDone hash job_id block_order src dst o a job w
                ⊎ LargeDone hash job_id block_order src dst o a job w)
              (if leb (size_of a.src) o.small_file
                then transfer_small hash job_id block_order src dst o a job
                else transfer_large hash job_id block_order src dst o a job)
              (λ s. record s { file_bytes = s.file_bytes + (size_of a.src) })
              (Ends-if (leb (size_of a.src) o.small_file) _ _
                (λ e.
                  Ends-mono _ (λ x r h. inl h)
                    (SmallDone-Ends hash job_id block_order src dst o a job))
                (λ e.
                  Ends-mono _ (λ x r h. inr h)
                    (LargeDone-Ends hash job_id block_order src dst o a job)))

  -- If the transfer of a file succeeds, its last call of the destination was a commit, through a writer
  -- begun for the planned path, size and job, of the hash of a content of the planned size that the
  -- source gave, or of the digest that the source gave with its size, which is the planned one; or a
  -- set_meta, where the signatures that the destination gave are of a file of that size with the digests
  -- of all of the source's blocks at their positions. That call succeeded, with the mode and the time
  -- of the plan.
  pub transfer_file-Done :
      (r r' : Run S)
      → transfer_file hash job_id block_order src dst o a r ≡ (ok tt, r')
      → SmallDone hash job_id block_order src dst o a
          (job_id a.dst_path (size_of a.src) (mtime_of a.src) o.resume)
          r'.world
        ⊎ LargeDone hash job_id block_order src dst o a
            (job_id a.dst_path (size_of a.src) (mtime_of a.src) o.resume)
            r'.world
  transfer_file-Done r r' h = Ends-ok _ r r' tt transfer_file-Ends h
