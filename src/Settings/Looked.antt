-- ===== src/Settings/Looked.antt =====
-- `buildOptions` only reads a file.
use vextra.Base.{
  ◌^◌, Bool, not, ◌||◌, Option, none, some, List, [], ◌∷◌, ◌++◌, Text, codes, text_eq,
}
use vextra.Base.Result.{Err, Result, ok, err, pure, attempt}
use vextra.Base.Keeps.{Keeps, Keeps-pure, Keeps-raise, Keeps-if, Keeps-bind, Keeps-attempt}
use vextra.Config.{Config}
use vextra.Base.Int.{ℤ, pos, ltb_ℤ}
use vextra.Excludes.{ExcludeSet, compile_excludes}
use vextra.Flags.{XferFlags, is_set}
use vextra.Machine.{Machine}
use vextra.Settings.{
  or_usage, size_or_usage, compiled, settings_of, build_options, build_excludes, excludes_from,
  compile_all, chosen_workers, chosen_block_size, chosen_bwlimit, block_size_of,
}
use vextra.Session.Looked.{ReadOnly}

module _ {S H F : Type 0} (mc : Machine S H F) (P : S → Type 0) (ro : ReadOnly mc P) where
  or_usage-Keeps : {A : Type 0} (r : Result A) → Keeps P (or_usage r)
  or_usage-Keeps (ok a) = Keeps-pure a
  or_usage-Keeps (err e) = Keeps-raise Err.usage

  compile_all-Keeps : (ps : List Text) → Keeps P (compile_all mc ps)
  unfolding compile_all
  compile_all-Keeps [] = Keeps-pure none
  compile_all-Keeps (p ∷ ps) = go (compile_excludes mc.path_match (p ∷ ps))
    where
      go : (r : Result ExcludeSet) → Keeps P (compiled r)
      go (ok es) = Keeps-pure (some es)
      go (err e) = Keeps-raise Err.usage

  build_excludes-Keeps : (cfg : Config) (x : XferFlags) → Keeps P (build_excludes mc cfg x)
  unfolding build_excludes excludes_from
  build_excludes-Keeps cfg x =
      Keeps-bind (excludes_from mc x) (λ f. compile_all mc (cfg.excludes ++ (f ++ x.excludes)))
        (Keeps-if (text_eq x.exclude_from []) _ _ (Keeps-pure []) (
          Keeps-bind (attempt (mc.read_lines x.exclude_from)) or_usage
            (Keeps-attempt _ (ro.lines x.exclude_from)) or_usage-Keeps))
        λ f. compile_all-Keeps _

  chosen_workers-Keeps : (cfg : Config) (x : XferFlags) → Keeps P (chosen_workers mc.cpus cfg x)
  unfolding chosen_workers
  chosen_workers-Keeps cfg x =
      Keeps-if (not (is_set (codes "workers") x)) _ _ (Keeps-pure _)
        (Keeps-if (ltb_ℤ x.workers (pos 1)) _ _ (Keeps-raise Err.usage) (Keeps-pure _))

  block_size_of-Keeps : (o : Option ℤ) → Keeps P (block_size_of o)
  unfolding block_size_of
  block_size_of-Keeps none = Keeps-raise Err.usage
  block_size_of-Keeps (some v) =
      Keeps-if (ltb_ℤ v (pos (2 ^ 12)) || ltb_ℤ (pos (2 ^ 24)) v) _ _ (Keeps-raise Err.usage)
        (Keeps-pure v)

  size_or_usage-Keeps : (o : Option ℤ) → Keeps P (size_or_usage o)
  size_or_usage-Keeps none = Keeps-raise Err.usage
  size_or_usage-Keeps (some v) = Keeps-pure v

  pub build_options-Keeps :
      (cfg : Config) (x : XferFlags) (confirm : Option Bool)
      → Keeps P (build_options mc cfg x confirm)
  unfolding build_options chosen_block_size chosen_bwlimit
  build_options-Keeps cfg x confirm =
      Keeps-bind (build_excludes mc cfg x) _ (build_excludes-Keeps cfg x) λ ex.
        Keeps-bind (chosen_workers mc.cpus cfg x) _ (chosen_workers-Keeps cfg x) λ n.
          Keeps-bind (chosen_block_size mc cfg x) _
            (Keeps-if (text_eq x.block_size []) _ _ (Keeps-pure _) (block_size_of-Keeps _))
            λ bs.
              Keeps-bind (chosen_bwlimit mc x) (λ bw. pure (settings_of cfg x confirm ex n bs bw))
                (Keeps-if (text_eq x.bwlimit []) _ _ (Keeps-pure _) (size_or_usage-Keeps _))
                λ bw. Keeps-pure _
