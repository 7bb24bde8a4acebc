-- ===== src/Local/Delivered.antt =====
-- A transfer into a local file system: the engine's transfer and the commit of a `localWriter`.
use vextra.Base.{ℕ, ◌≡◌, refl, ◌⊎◌, inl, inr, Bool, List, Text}
use vextra.Base.Int.{ℤ, pos}
use vextra.Base.Result.{ok, M, ◌>>=◌, pure, >>=-ok}
use mathlib.Core.Path.{subst}
use vextra.Os.{Os}
use vextra.Fs.{Fs}
use vextra.Delta.{Sigs}
use vextra.Plan.{Action, Options, size_of}
use vextra.Engine.{Run, mode_of, mtime_of, transfer_file}
use vextra.Base.Gives.{Gave}
use vextra.Engine.Small.{Commits, ReadWhole}
use vextra.Engine.Large.{Signed, LargeDone, SameContent}
use vextra.Engine.Ended.{transfer_file-Done}
use vextra.Local.{LocalFs, resolve}
use vextra.Local.Files.{LocalWriter, local_fs, local_begin, open_tmp, remove_stale_tmp, tmp_of}
use vextra.Local.Published.{Committed, local_fs-Committed}

module _ (hash : Text → Text) (job_id : Text → ℕ → ℤ → Bool → Text) (block_order : List ℕ → List ℕ)
    {S H D : Type 0} (src : Fs S H) (os : Os S D) (l : LocalFs) (o : Options) (a : Action) where
  abbrev here : Fs S (LocalWriter D)
  here = local_fs hash os l

  -- The writer that `Begin` opens: its destination is what the path resolves to.
  pub record Began (job : Text) (use_base : Bool) (writer : LocalWriter D) : Type 0 where
    pub resolved : Gave (resolve os l a.dst_path) writer.dst
    pub named : writer.tmp ≡ tmp_of writer.dst job
    pub sized : writer.size ≡ pos (size_of a.src)
    pub opened : Gave (open_tmp hash os writer.dst writer.tmp use_base) writer.f

  -- The temporary file of a job, opened behind the removal of the stale ones.
  abbrev opening : Text → Bool → Text → M S D
  opening job use_base rp s =
      open_tmp hash os rp (tmp_of rp job) use_base (remove_stale_tmp hash os rp (tmp_of rp job) s)

  abbrev writer_at : Text → Text → D → LocalWriter D
  writer_at job rp f = record { f = f; tmp = tmp_of rp job; dst = rp; size = pos (size_of a.src) }

  begin-Began :
      (job : Text) (use_base : Bool) (writer : LocalWriter D)
      → Gave (here.begin a.dst_path job (pos (size_of a.src)) use_base) writer
      → Began job use_base writer
  unfolding local_fs local_begin
  begin-Began job use_base writer (s, s', e) =
      let x =
        >>=-ok (resolve os l a.dst_path)
          (λ rp. opening job use_base rp >>= λ f. pure (writer_at job rp f)) s writer s' e in
      let y =
        >>=-ok (opening job use_base x.value) (λ f. pure (writer_at job x.value f)) x.state writer
          s' x.second in
      subst (Began job use_base) (cc y.second) (record {
        resolved = (s, x.state, x.first);
        named = refl;
        sized = refl;
        opened = (remove_stale_tmp hash os x.value (tmp_of x.value job) x.state, y.state, y.first);
      })

  -- A file of this digest was put at the path of the plan, with the mode and the time of the plan, and
  -- this is the world behind it.
  pub record Placed (job sum : Text) (w : S) : Type 0 where
    pub writer : LocalWriter D
    pub use_base : Bool
    pub began : Began job use_base writer
    pub before : S
    pub committed : Committed hash os l writer sum (mode_of a.src) (mtime_of a.src) before w

  Commits-Placed :
      (job sum : Text) (w : S)
      → Commits hash job_id block_order src here o a job sum w
      → Placed job sum w
  Commits-Placed job sum w c = record {
    writer = c.writer;
    use_base = c.use_base;
    began = begin-Began job c.use_base c.writer c.opened;
    before = c.before;
    committed = local_fs-Committed hash os l c.writer sum _ _ c.before w c.done;
  }

  -- What became of the file.
  pub record Delivered (job : Text) (w : S) : Type 0 where
    pub whole :
        ((content : Text) × ReadWhole hash job_id block_order src here o a content
          × Placed job (hash content) w)
        ⊎ ((pair : Sigs × Sigs) × Signed hash job_id block_order src here o a job pair
            × (pair.0.size ≡ pos (size_of a.src))
            × (Placed job (pair.0.hash) w
                ⊎ (SameContent (pair.0) (pair.1) (size_of a.src)
                    × (before : S) × (here.set_meta a.dst_path
                          (mode_of a.src)
                          (mtime_of a.src)
                          before
                        ≡ (ok tt, w)))))

  LargeDone-Delivered :
      (job : Text) (w : S) → LargeDone hash job_id block_order src here o a job w → Delivered job w
  LargeDone-Delivered job w d = record {
    whole = inr (
      d.pair,
      d.signed,
      d.there.1,
      elim d.finished [ inl c ↦ inl (Commits-Placed job _ w c) | inr m ↦ inr m ],
    );
  }

  -- If the transfer of a file into a LocalFS succeeds, then a temporary file beside what the destination's
  -- path resolves to was renamed to it, has the planned size there, and what was read back from it before
  -- has the hash of a content of that size that the source gave, or the digest that the source gave for
  -- a file of that size; or the signatures that the destination gave are of a file of that size with the
  -- digests of all of the source's blocks at their positions, and mode and time were set. The mode and the time are those of the plan.
  pub transfer_file-Delivered :
      (r r' : Run S)
      → transfer_file hash job_id block_order src here o a r ≡ (ok tt, r')
      → Delivered (job_id a.dst_path (size_of a.src) (mtime_of a.src) o.resume) r'.world
  transfer_file-Delivered r r' h =
      elim (transfer_file-Done hash job_id block_order src here o a r r' h) [
        | inl s ↦ record { whole = inl (s.content, s.read, Commits-Placed _ _ r'.world s.commits) }
        | inr d ↦ LargeDone-Delivered _ r'.world d
      ]
