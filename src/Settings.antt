-- ===== src/Settings.antt =====
-- `buildOptions`, `buildExcludes` and `confirmFunc` of main.go: the options of a run from the flags and
-- the configuration.
pub mod Bounded
pub mod Looked
use vextra.Base.{
  ℕ, ◌^◌, Bool, true, not, ◌&&◌, ◌||◌, Option, none, some, List, [], ◌∷◌, ◌++◌, if◌then◌else◌, Text,
  codes, text_eq,
}
use vextra.Base.Int.{ℤ, pos, ltb_ℤ, pos_part}
use vextra.Base.Result.{Err, Result, ok, err, M, ◌>>=◌, pure, raise, attempt}
use vextra.Config.{Config, effective_workers, parse_size}
use vextra.Excludes.{ExcludeSet, compile_excludes}
use vextra.Plan.{Options}
use vextra.Util.{is_yes}
use vextra.Flags.{XferFlags, is_set}
use vextra.Machine.{Machine}

-- The `Options` that the model of a run takes, and those that change no result.
pub record Settings : Type 0 where
  pub options : Options
  pub workers : ℤ
  pub max_inflight : ℤ
  pub bw_limit : ℤ
  pub verbose : Bool
  pub quiet : Bool

abbrev pub or_usage : {S A : Type 0} → Result A → M S A
or_usage r = elim r [ ok a ↦ pure a | err e ↦ raise Err.usage ]

abbrev pub size_or_usage : {S : Type 0} → Option ℤ → M S ℤ
size_or_usage o = elim o [ none ↦ raise Err.usage | some v ↦ pure v ]

-- `--workers` wins over the configuration.
unfoldable pub chosen_workers : {S : Type 0} → ℤ → Config → XferFlags → M S ℤ
chosen_workers cpus cfg x =
    if not (is_set (codes "workers") x)
    then pure (effective_workers cpus cfg)
    else if ltb_ℤ x.workers (pos 1)
    then raise Err.usage
    else pure x.workers

-- A size of a block that was written.
unfoldable pub block_size_of : {S : Type 0} → Option ℤ → M S ℤ
block_size_of none = raise Err.usage
block_size_of (some v) =
    if ltb_ℤ v (pos (2 ^ 12)) || ltb_ℤ (pos (2 ^ 24)) v then raise Err.usage else pure v

abbrev pub compiled : {S : Type 0} → Result ExcludeSet → M S (Option ExcludeSet)
compiled r = elim r [ ok es ↦ pure (some es) | err e ↦ raise Err.usage ]

-- The answer that the function of `confirmFunc` would give: none, if it is nil; `line` is the next
-- line of the standard input.
unfoldable pub confirm_func : (Text → Text) → Bool → Bool → Text → Option Bool
confirm_func lower confirmed is_tty line =
    if confirmed then some true else if is_tty then some (is_yes lower line) else none

-- The options, from what was chosen.
abbrev pub settings_of : Config → XferFlags → Option Bool → Option ExcludeSet → ℤ → ℤ → ℤ → Settings
settings_of cfg x confirm ex workers block_size bw_limit = record {
  options = record {
    delete = x.del;
    max_delete = if is_set (codes "max-delete") x then x.max_delete else cfg.max_delete;
    confirm_mass = cfg.confirm_mass;
    confirm_over = cfg.confirm_over;
    confirm = confirm;
    block_size = pos_part block_size;
    small_file = pos_part cfg.small_file;
    resume = cfg.resume && not x.no_resume;
    deep = x.deep;
    exclude = ex;
  };
  workers = workers;
  max_inflight = cfg.max_inflight;
  bw_limit = bw_limit;
  verbose = x.verbose;
  quiet = x.quiet;
}

module _ {S H F : Type 0} (mc : Machine S H F) where
  abbrev pub size_of_text : Text → Option ℤ
  size_of_text = parse_size mc.parse_float mc.negative mc.times mc.parse_bool mc.atoi

  unfoldable pub chosen_block_size : Config → XferFlags → M S ℤ
  chosen_block_size cfg x =
      if text_eq x.block_size []
      then pure cfg.block_size
      else block_size_of (size_of_text x.block_size)

  unfoldable pub chosen_bwlimit : XferFlags → M S ℤ
  chosen_bwlimit x =
      if text_eq x.bwlimit [] then pure (pos 0) else size_or_usage (size_of_text x.bwlimit)

  unfoldable pub excludes_from : XferFlags → M S (List Text)
  excludes_from x =
      if text_eq x.exclude_from []
      then pure []
      else attempt (mc.read_lines x.exclude_from) >>= or_usage

  unfoldable pub compile_all : List Text → M S (Option ExcludeSet)
  compile_all [] = pure none
  compile_all (p ∷ ps) = compiled (compile_excludes mc.path_match (p ∷ ps))

  -- `buildExcludes`: those of the configuration, of the file, and of the command line
  unfoldable pub build_excludes : Config → XferFlags → M S (Option ExcludeSet)
  build_excludes cfg x =
      excludes_from x >>= λ from_file. compile_all (cfg.excludes ++ (from_file ++ x.excludes))

  -- `buildOptions`
  unfoldable pub build_options : Config → XferFlags → Option Bool → M S Settings
  build_options cfg x confirm = do
    ex ← build_excludes cfg x
    workers ← chosen_workers mc.cpus cfg x
    block_size ← chosen_block_size cfg x
    bw_limit ← chosen_bwlimit x
    pure (settings_of cfg x confirm ex workers block_size bw_limit)
