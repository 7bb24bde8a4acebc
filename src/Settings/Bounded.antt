-- ===== src/Settings/Bounded.antt =====
-- The limits of the options of a run.
use vextra.Base.{
  ◌^◌, ◌≤◌, ◌≡◌, refl, Bool, true, not, ◌||◌, Option, none, some, [], arith, if◌then◌else◌, codes,
  text_eq,
}
use vextra.Base.Int.{ℤ, pos, ltb_ℤ, ◌≤ℤ◌}
use vextra.Base.Gives.{Gives, Gives-pure, Gives-raise, Gives-if, Gives-bind, Gives-any}
use vextra.Config.{Config, effective_workers}
use vextra.Config.Valid.{Valid}
use vextra.Flags.{XferFlags, is_set}
use vextra.Machine.{Machine}
use vextra.Settings.{
  Settings, settings_of, chosen_workers, block_size_of, chosen_block_size, chosen_bwlimit,
  build_excludes, build_options,
}

-- What was written wins over the configuration, and the limits hold.
pub record Bounded (cfg : Config) (x : XferFlags) (s : Settings) : Type 0 where
  pub worked : pos 1 ≤ℤ s.workers
  pub workers_written : is_set (codes "workers") x ≡ true → s.workers ≡ x.workers
  pub block_low : 2 ^ 12 ≤ s.options.block_size
  pub block_high : s.options.block_size ≤ 2 ^ 24
  pub max_delete :
      s.options.max_delete
      ≡ (if is_set (codes "max-delete") x then x.max_delete else cfg.max_delete)
  pub deletes : s.options.delete ≡ x.del

effective_workers-positive :
    (cpus : ℤ) (cfg : Config) → Valid cfg → pos 1 ≤ℤ effective_workers cpus cfg
unfolding effective_workers
effective_workers-positive cpus cfg v = ground arith

-- The number of workers of a run.
abbrev WorkersFrom : XferFlags → ℤ → Type 0
WorkersFrom x n = (pos 1 ≤ℤ n) × (is_set (codes "workers") x ≡ true → n ≡ x.workers)

abbrev BlockSize : ℤ → Type 0
BlockSize n = (pos (2 ^ 12) ≤ℤ n) × (n ≤ℤ pos (2 ^ 24))

chosen_workers-WorkersFrom :
    {S : Type 0} (cpus : ℤ) (cfg : Config) (x : XferFlags)
    → Valid cfg
    → Gives {S = S} (WorkersFrom x) (chosen_workers cpus cfg x)
unfolding chosen_workers
chosen_workers-WorkersFrom cpus cfg x v =
    Gives-if (not (is_set (codes "workers") x)) _ _
      (λ e. Gives-pure _ (effective_workers-positive cpus cfg v, λ t. absurd (ground arith)))
      (λ e.
        Gives-if (ltb_ℤ x.workers (pos 1)) _ _ (λ l. Gives-raise _)
          (λ l. Gives-pure _ (ground (arith, l), λ t. refl)))

block_size_of-BlockSize : {S : Type 0} (o : Option ℤ) → Gives {S = S} BlockSize (block_size_of o)
unfolding block_size_of
block_size_of-BlockSize none = Gives-raise _
block_size_of-BlockSize (some v) =
    Gives-if (ltb_ℤ v (pos (2 ^ 12)) || ltb_ℤ (pos (2 ^ 24)) v) _ _ (λ e. Gives-raise _)
      (λ e. Gives-pure v (ground (arith, e)))

module _ {S H F : Type 0} (mc : Machine S H F) where
  chosen_block_size-BlockSize :
      (cfg : Config) (x : XferFlags) → Valid cfg → Gives BlockSize (chosen_block_size mc cfg x)
  unfolding chosen_block_size
  chosen_block_size-BlockSize cfg x v =
      Gives-if (text_eq x.block_size []) _ _ (λ e. Gives-pure _ (v.blocks_low, v.blocks_high))
        (λ e. block_size_of-BlockSize _)

  -- The options that buildOptions makes of a configuration within its limits: there is at least one
  -- worker, and the number that --workers gave if it was written; a block has 4 KiB to 16 MiB; at most
  -- as many deletions as --max-delete says if it was written, and otherwise the configuration; and
  -- deletions are wanted exactly if --delete says so.
  pub build_options-Bounded :
      (cfg : Config) (x : XferFlags) (confirm : Option Bool)
      → Valid cfg
      → Gives (Bounded cfg x) (build_options mc cfg x confirm)
  unfolding build_options
  build_options-Bounded cfg x confirm v =
      Gives-bind (build_excludes mc cfg x) _ (Gives-any (build_excludes mc cfg x)) λ ex _.
        Gives-bind (chosen_workers mc.cpus cfg x) _ (chosen_workers-WorkersFrom mc.cpus cfg x v)
          λ n w.
            Gives-bind (chosen_block_size mc cfg x) _ (chosen_block_size-BlockSize cfg x v) λ bs b.
              Gives-bind (chosen_bwlimit mc x) _ (Gives-any (chosen_bwlimit mc x)) λ bw _.
                Gives-pure (settings_of cfg x confirm ex n bs bw) (record {
                  worked = w.0;
                  workers_written = w.1;
                  block_low = ground (arith, b);
                  block_high = ground (arith, b);
                  max_delete = refl;
                  deletes = refl;
                })
