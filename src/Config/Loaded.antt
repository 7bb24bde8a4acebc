-- ===== src/Config/Loaded.antt =====
-- What a configuration file leaves of the limits, line by line.
use vextra.Base.{
  ℕ, ◌≡◌, refl, Bool, true, false, ◌&&◌, Option, none, some, List, [], ◌∷◌, ◌++◌, arith,
  if◌then◌else◌, Text, codes, text_eq, has_prefix,
}
use vextra.Base.Int.{ℤ, pos, ◌≤ℤ◌}
use vextra.Base.Result.{Err, Result, ok, err, bind}
use mathlib.Core.Path.{subst}
use vextra.Config.{
  Config, default_config, effective_workers, Parsed, in_section, parse_cut, parse_line, parse_lines,
  parse_config, load_config,
}
use vextra.Config.Fields.{is_indented, no_comment, split_at, unquote}
use vextra.Config.Valid.{Valid, Good, default_config-Valid, with_others, set_key-Good}
use vextra.Excludes.{trim_space}
use vextra.Transport.{cut}

abbrev GoodParsed : Result Parsed → Type 0
GoodParsed (ok p) = Valid p.config
GoodParsed (err e) = Unit

module _ {F : Type 0} (parse_float : Text → Option F) (negative : F → Bool) (times : F → ℕ → ℤ)
    (parse_bool : Text → Option Bool) (atoi : Text → Option ℤ) where
  GoodParsed-if :
      (b : Bool) (x y : Result Parsed)
      → GoodParsed x
      → GoodParsed y
      → GoodParsed (if b then x else y)
  GoodParsed-if true x y h k = h
  GoodParsed-if false x y h k = k

  Good-in_section :
      (section : Text) (x : Result Config)
      → Good x
      → GoodParsed (in_section parse_float negative times parse_bool atoi section x)
  Good-in_section section (ok c) h = h
  Good-in_section section (err e) h = tt

  Good-parse_cut :
      (indented : Bool) (o : Option (Text × Text)) (p : Parsed)
      → Valid p.config
      → GoodParsed (parse_cut parse_float negative times parse_bool atoi indented o p)
  Good-parse_cut indented none p v = tt
  Good-parse_cut indented (some (k, w)) p v =
      let key = trim_space k in
      let val = unquote (trim_space w) in
      GoodParsed-if indented _ _
        (Good-in_section p.section _ (
          set_key-Good parse_float negative times parse_bool atoi
            (if text_eq p.section [] then key else p.section ++ (b'.' ∷ key)) val p.config v))
        (GoodParsed-if (text_eq val []) _ _ v (
          Good-in_section [] _
            (set_key-Good parse_float negative times parse_bool atoi key val p.config v)))

  parse_line-Good :
      (raw : Text) (p : Parsed)
      → Valid p.config
      → GoodParsed (parse_line parse_float negative times parse_bool atoi raw p)
  unfolding parse_line
  parse_line-Good raw p v =
      let line = no_comment raw in
      let trimmed = trim_space line in
      GoodParsed-if (text_eq trimmed []) _ _ v (
        GoodParsed-if
          (is_indented line
            && text_eq p.section (codes "exclude")
            && has_prefix trimmed (codes "- "))
          _ _ (with_others p.config _ refl refl refl refl v)
          (Good-parse_cut (is_indented line) (cut trimmed b':') p v))

  bound_Good :
      (x : Result Parsed) (f : Parsed → Result Parsed)
      → GoodParsed x
      → ((p : Parsed) → Valid p.config → GoodParsed (f p))
      → GoodParsed (bind x f)
  bound_Good (ok p) f h k = k p h
  bound_Good (err e) f h k = tt

  parse_lines-Good :
      (lines : List Text) (p : Parsed)
      → Valid p.config
      → GoodParsed (parse_lines parse_float negative times parse_bool atoi lines p)
  unfolding parse_lines
  parse_lines-Good [] p v = v
  parse_lines-Good (line ∷ lines) p v =
      bound_Good (parse_line parse_float negative times parse_bool atoi line p)
        (parse_lines parse_float negative times parse_bool atoi lines) (parse_line-Good line p v)
        (parse_lines-Good lines)

  config_of : (x : Result Parsed) → GoodParsed x → Good (bind x λ p. ok p.config)
  config_of (ok p) h = h
  config_of (err e) h = tt

  parse_config-Good :
      (data' : Text) (c : Config)
      → Valid c
      → Good (parse_config parse_float negative times parse_bool atoi data' c)
  unfolding parse_config
  parse_config-Good data' c v =
      config_of _ (parse_lines-Good (split_at 10 data') (record { section = []; config = c }) v)

  load_config-Good :
      (must_exist : Bool) (read : Result Text)
      → Good (load_config parse_float negative times parse_bool atoi must_exist read)
  unfolding load_config
  load_config-Good true (err Err.not_exist) = tt
  load_config-Good false (err Err.not_exist) = default_config-Valid
  load_config-Good must_exist (ok data') =
      parse_config-Good data' default_config default_config-Valid
  load_config-Good must_exist (err e) = tt

  -- A configuration that was loaded, from a file or by default, is within its limits: the compression is
  -- "auto" or "off", the hash is the one of the program, a block has 4 KiB to 16 MiB, and there is at
  -- least one worker, whatever the number of processors.
  pub load_config-Valid :
      (must_exist : Bool) (read : Result Text) (cpus : ℤ) (c : Config)
      → load_config parse_float negative times parse_bool atoi must_exist read ≡ ok c
      → Valid c × (pos 1 ≤ℤ effective_workers cpus c)
  unfolding effective_workers
  load_config-Valid must_exist read cpus c h =
      (subst Good h (load_config-Good must_exist read), ground arith)
