-- ===== src/Engine/Large.antt =====
-- How the transfer of a large file that succeeds has ended.
use vextra.Base.{
  ℕ, ◌≡◌, refl, sym, ap, ◌⊎◌, inl, inr, Bool, true, not, ◌||◌, some, List, [], ◌∷◌, arith,
  get_elem?, Text,
}
use vextra.Base.Int.{ℤ, pos, ◌-ℤ◌, eqb_ℤ, eqb_ℤ_iff}
use vextra.Base.Result.{Err, Result, ok, err, M, attempt}
use vextra.Base.Gives.{
  Gives, Gives-pure, Gives-raise, Gives-if, Gives-bind, Gives-any, Gives-attempt, Holds, Gave,
}
use vextra.Base.Ends.{Ends, Ends-bind, Ends-if, Ends-mono}
use vextra.Delta.Diff.{has, unselected-SameAt}
use vextra.Delta.{Sigs, block_size_for, diff_blocks}
use vextra.Fs.{Fs}
use vextra.Plan.{Action, Options, size_of}
use vextra.Engine.{
  Run, on, mode_of, mtime_of, is_final, same_content, count_transfer, both_sigs, load_sigs,
  check_source, or_abort, send_blocks, send_delta, transfer_large, count_same,
}
use vextra.Engine.Small.{on-Gave, Ends-tally, Commits, call-Ends, commit-Ends}

-- The destination has what the source has: a file of this size, with the source's digest at the position
-- of each of the source's blocks.
pub record SameContent (ss ds : Sigs) (size : ℕ) : Type 0 where
  pub exists : ds.exists ≡ true
  pub sized : ds.size ≡ pos size
  pub blocks : (i : ℕ) (d : Text) → get_elem? ss.blocks i ≡ some d → get_elem? ds.blocks i ≡ some d

-- The test of `transferLarge`, for the blocks that `diffBlocks` selects.
same_content-SameContent :
    (ss ds : Sigs) (bs size : ℕ) (changed : List ℕ)
    → changed ≡ (diff_blocks ss ds bs size).0
    → same_content changed ds size ≡ true
    → SameContent ss ds size
same_content-SameContent ss ds bs size [] e h = record {
  exists = ground arith;
  sized = (eqb_ℤ_iff ds.size (pos size)).0 (ground arith);
  blocks = λ i d g. (unselected-SameAt ss ds bs size i d g (ap (has i) (sym e))).1;
}
same_content-SameContent ss ds bs size (c ∷ changed) e h = cc h

module _ (hash : Text → Text) (job_id : Text → ℕ → ℤ → Bool → Text) (block_order : List ℕ → List ℕ)
    {S H K : Type 0} (src : Fs S H) (dst : Fs S K) (o : Options) (a : Action) where
  abbrev pub block_size : ℕ
  block_size = block_size_for (size_of a.src) o.block_size

  -- The block digests that both sides gave for a large file.
  pub record Signed (job : Text) (pair : Sigs × Sigs) : Type 0 where
    pub source : Gave (src.sigs a.src_path [] (pos block_size)) (pair.0)
    pub target : Gave (dst.sigs a.dst_path job (pos block_size)) (pair.1)

  both_sigs-Signed :
      (job : Text) (s d : Result Sigs)
      → Holds (Gave (src.sigs a.src_path [] (pos block_size))) s
      → Holds (Gave (dst.sigs a.dst_path job (pos block_size))) d
      → Gives {S = Run S} (Signed job) (both_sigs s d)
  both_sigs-Signed job (err e) d hs hd = Gives-raise e
  both_sigs-Signed job (ok s) (err e) hs hd = Gives-raise e
  both_sigs-Signed job (ok s) (ok d) hs hd = Gives-pure (s, d) (record { source = hs; target = hd })

  load_sigs-Signed :
      (job : Text)
      → Gives (Signed job) (load_sigs hash job_id block_order src dst o a job block_size)
  unfolding load_sigs
  load_sigs-Signed job =
      Gives-bind (attempt (on (dst.sigs a.dst_path job (pos block_size)))) _
        (Gives-attempt _ (on-Gave (dst.sigs a.dst_path job (pos block_size))))
        λ d hd.
          Gives-bind (attempt (on (src.sigs a.src_path [] (pos block_size)))) (λ s. both_sigs s d)
            (Gives-attempt _ (on-Gave (src.sigs a.src_path [] (pos block_size))))
            λ s hs. both_sigs-Signed job s d hs hd

  -- A large file: the digest of what the source has was committed, or the destination has that
  -- content and its mode and time were set.
  pub record LargeDone (job : Text) (w : S) : Type 0 where
    pub pair : Sigs × Sigs
    pub signed : Signed job pair
    pub there : (pair.0.exists ≡ true) × (pair.0.size ≡ pos (size_of a.src))
    pub finished :
        Commits hash job_id block_order src dst o a job (pair.0.hash) w
        ⊎ (SameContent (pair.0) (pair.1) (size_of a.src)
            × (before : S) × (dst.set_meta a.dst_path (mode_of a.src) (mtime_of a.src) before
                ≡ (ok tt, w)))

  abbrev set_meta_of : M S (Unit {0})
  set_meta_of = dst.set_meta a.dst_path (mode_of a.src) (mtime_of a.src)

  check_source-There :
      (ss : Sigs)
      → Gives
          (λ u. (ss.exists ≡ true) × (ss.size ≡ pos (size_of a.src)))
          (check_source hash job_id block_order src dst o ss (size_of a.src))
  check_source-There ss =
      Gives-if (not ss.exists || not (eqb_ℤ ss.size (pos (size_of a.src)))) _ _
        (λ e. Gives-raise Err.verify)
        (λ e.
          Gives-pure tt (ground arith, (eqb_ℤ_iff ss.size (pos (size_of a.src))).0 (ground arith)))

  send_delta-Ends :
      (job : Text) (ss ds : Sigs) (delta : List ℕ × ℤ)
      → Ends
          (λ u r. Commits hash job_id block_order src dst o a job ss.hash r.world)
          (send_delta hash job_id block_order src dst o a job block_size ss ds delta)
  unfolding send_delta
  send_delta-Ends job ss ds (changed, total) =
      Ends-bind (on (dst.begin a.dst_path job (pos (size_of a.src)) (is_final ds))) _ (on-Gave _)
        λ w g.
          Ends-bind
            (or_abort hash job_id block_order src dst o
              (send_blocks hash job_id block_order src dst o a block_size (size_of a.src) w
                (block_order changed))
              w)
            _ (Gives-any _)
            λ v u2.
              commit-Ends hash job_id block_order src dst o a job (is_final ds) w ss.hash
                (count_transfer a total (pos (size_of a.src) -ℤ total)) g

  pub LargeDone-Ends :
      (job : Text)
      → Ends (λ u r. LargeDone job r.world) (transfer_large hash job_id block_order src dst o a job)
  unfolding transfer_large
  LargeDone-Ends job =
      Ends-bind (load_sigs hash job_id block_order src dst o a job block_size) _
        (load_sigs-Signed job)
        λ pair q.
          Ends-bind (check_source hash job_id block_order src dst o (pair.0) (size_of a.src)) _
            (check_source-There (pair.0))
            λ u t.
              let delta = diff_blocks (pair.0) (pair.1) block_size (size_of a.src) in
              Ends-if (same_content (delta.0) (pair.1) (size_of a.src)) _ _
                (λ e.
                  Ends-mono _
                    (λ v r m. record {
                      pair = pair;
                      signed = q;
                      there = t;
                      finished = inr (
                        same_content-SameContent (pair.0) (pair.1) block_size (size_of a.src)
                            (delta.0) refl e,
                        m.0,
                        m.1,
                      );
                    })
                    (Ends-tally (λ w. (before : S) × (set_meta_of before ≡ (ok tt, w)))
                      (on set_meta_of)
                      (count_same hash job_id block_order src dst o (size_of a.src))
                      (call-Ends hash job_id block_order src dst o a set_meta_of)))
                (λ e.
                  Ends-mono _
                    (λ v r m. record { pair = pair; signed = q; there = t; finished = inl m })
                    (send_delta-Ends job (pair.0) (pair.1) delta))
