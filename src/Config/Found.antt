-- ===== src/Config/Found.antt =====
-- `LoadConfig` of config.go: where the file is looked for. The variable of the environment, the directory
-- of the user's configurations and reading a file are parameters.
use vextra.Base.{ℕ, Bool, [], Option, not, if◌then◌else◌, Text, codes, text_eq}
use vextra.Base.Int.{ℤ}
use vextra.Base.Result.{Result, ok, err, M, ◌>>=◌, pure, raise, attempt}
use vextra.Path.{path_join}
use vextra.Config.{Config, default_config, load_config}

abbrev in_config_dir : Result Text → Text
in_config_dir (ok d) = path_join d (codes "vextra/config.yaml")
in_config_dir (err e) = []

-- The path, and whether the file has to be there.
unfoldable pub config_source : Text → Text → Result Text → Text × Bool
config_source explicit env config_dir =
    let p = if text_eq explicit [] then env else explicit in
    let must_exist = not (text_eq p []) in
    (if must_exist then p else in_config_dir config_dir, must_exist)

abbrev pub of_result : {S A : Type 0} → Result A → M S A
of_result r = elim r [ ok a ↦ pure a | err e ↦ raise e ]

module _ {F : Type 0} (parse_float : Text → Option F) (negative : F → Bool) (times : F → ℕ → ℤ)
    (parse_bool : Text → Option Bool) (atoi : Text → Option ℤ) {S : Type 0}
    (read_file : Text → M S Text) where
  unfoldable pub load_from : Text × Bool → M S Config
  load_from (p, must_exist) =
      if text_eq p []
      then pure default_config
      else attempt (read_file p) >>= λ r.
          of_result (load_config parse_float negative times parse_bool atoi must_exist r)

  -- `LoadConfig`
  unfoldable pub find_config : Text → Text → Result Text → M S Config
  find_config explicit env config_dir = load_from (config_source explicit env config_dir)
