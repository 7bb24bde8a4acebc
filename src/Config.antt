-- ===== src/Config.antt =====
-- config.go: the configuration, its file format and its limits; `parseSize` of util.go. The numbers and
-- Booleans of strconv are parameters. A failed line leaves no configuration, so what `set` has changed by
-- then is left out. `strings.ToUpper` is that of ASCII.
pub mod Fields
pub mod Valid
pub mod Loaded
pub mod Found
use vextra.Base.{
  ℕ, ◌*◌, ◌^◌, Bool, true, ◌&&◌, ◌||◌, Option, none, some, List, [], ◌∷◌, ◌++◌, if◌then◌else◌, drop,
  Text, codes, text_eq, has_prefix,
}
use vextra.Base.Int.{ℤ, pos, ltb_ℤ}
use vextra.Base.Result.{Err, Result, ok, err, bind}
use vextra.Config.Fields.{split_at, unquote, size_parts, no_comment, is_indented}
use vextra.Excludes.{trim_space}
use vextra.Transport.{cut}

pub record Config : Type 0 where
  pub compression : Text
  pub hash : Text
  pub resume : Bool
  pub max_delete : ℤ
  pub confirm_mass : Bool
  pub confirm_over : ℤ
  pub workers : ℤ
  pub max_inflight : ℤ
  pub block_size : ℤ
  pub small_file : ℤ
  pub ssh : Text
  pub remote_bin : Text
  pub excludes : List Text

-- hashName of hash.go
abbrev pub hash_name : Text
hash_name = codes "sha256"

abbrev pub default_config : Config
default_config = record {
  compression = codes "auto";
  hash = hash_name;
  resume = true;
  max_delete = pos 1000;
  confirm_mass = true;
  confirm_over = pos 10;
  workers = pos 0;
  max_inflight = pos (256 * 2 ^ 20);
  block_size = pos (2 ^ 20);
  small_file = pos (64 * 2 ^ 10);
  ssh = codes "ssh";
  remote_bin = codes "vextra";
  excludes = [];
}

-- `EffectiveWorkers` on a machine with so many processors
unfoldable pub effective_workers : ℤ → Config → ℤ
effective_workers cpus c =
    let n = if ltb_ℤ cpus (pos 4) then pos 4 else cpus in
    if ltb_ℤ (pos 0) c.workers then c.workers else if ltb_ℤ (pos 16) n then pos 16 else n

-- The parts of a line of the file, or of a line that is skipped.
pub record Parsed : Type 0 where
  pub section : Text
  pub config : Config

abbrev or_bad : {A : Type 0} → Option A → (A → Config) → Result Config
or_bad none f = err Err.other
or_bad (some a) f = ok (f a)

module _ {F : Type 0} (parse_float : Text → Option F) (negative : F → Bool) (times : F → ℕ → ℤ)
    (parse_bool : Text → Option Bool) (atoi : Text → Option ℤ) where
  abbrev size_of_float : Option F → ℕ → Option ℤ
  size_of_float none mult = none
  size_of_float (some v) mult = if negative v then none else some (times v mult)

  unfoldable pub parse_size : Text → Option ℤ
  parse_size s = let (t, mult) = size_parts s in size_of_float (parse_float (trim_space t)) mult

  abbrev set_workers : Option ℤ → Config → Result Config
  set_workers none c = err Err.other
  set_workers (some n) c = if ltb_ℤ n (pos 1) then err Err.other else ok (record c { workers = n })

  abbrev set_block_size : Option ℤ → Config → Result Config
  set_block_size none c = err Err.other
  set_block_size (some n) c =
      if ltb_ℤ n (pos (2 ^ 12)) || ltb_ℤ (pos (2 ^ 24)) n
      then err Err.other
      else ok (record c { block_size = n })

  -- `set`
  unfoldable pub set_key : Text → Text → Config → Result Config
  set_key key val c =
      if text_eq key (codes "compression")
      then (if text_eq val (codes "auto") || text_eq val (codes "off")
          then ok (record c { compression = val })
          else err Err.other)
      else if text_eq key (codes "hash")
      then (if text_eq val hash_name then ok (record c { hash = val }) else err Err.other)
      else if text_eq key (codes "resume")
      then or_bad (parse_bool val) (λ b. record c { resume = b })
      else if text_eq key (codes "safety.max_delete")
      then or_bad (atoi val) (λ n. record c { max_delete = n })
      else if text_eq key (codes "safety.confirm_mass_delete")
      then or_bad (parse_bool val) (λ b. record c { confirm_mass = b })
      else if text_eq key (codes "safety.confirm_over")
      then or_bad (atoi val) (λ n. record c { confirm_over = n })
      else if text_eq key (codes "workers")
      then (if text_eq val (codes "auto")
          then ok (record c { workers = pos 0 })
          else set_workers (atoi val) c)
      else if text_eq key (codes "max_inflight")
      then or_bad (parse_size val) (λ n. record c { max_inflight = n })
      else if text_eq key (codes "block_size")
      then set_block_size (parse_size val) c
      else if text_eq key (codes "small_file")
      then or_bad (parse_size val) (λ n. record c { small_file = n })
      else if text_eq key (codes "ssh")
      then ok (record c { ssh = val })
      else if text_eq key (codes "remote_bin")
      then ok (record c { remote_bin = val })
      else err Err.other

  abbrev in_section : Text → Result Config → Result Parsed
  in_section section (err e) = err e
  in_section section (ok c) = ok (record { section = section; config = c })

  -- A line "key: value", without the spaces around it.
  abbrev parse_pair : Bool → Text → Text → Parsed → Result Parsed
  parse_pair indented k v p =
      if indented
      then in_section p.section
          (set_key (if text_eq p.section [] then k else p.section ++ (b'.' ∷ k)) v p.config)
      else if text_eq v []
      then ok (record p { section = k })
      else in_section [] (set_key k v p.config)

  abbrev parse_cut : Bool → Option (Text × Text) → Parsed → Result Parsed
  parse_cut indented none p = err Err.other
  parse_cut indented (some (k, v)) p = parse_pair indented (trim_space k) (unquote (trim_space v)) p

  abbrev add_exclude : Text → Parsed → Parsed
  add_exclude x p = record p {
    config = record p.config {
      excludes = p.config.excludes ++ (unquote (trim_space (drop 2 x)) ∷ []);
    };
  }

  -- One round of `parse`.
  unfoldable pub parse_line : Text → Parsed → Result Parsed
  parse_line raw p =
      let line = no_comment raw in
      let trimmed = trim_space line in
      if text_eq trimmed []
      then ok p
      else if is_indented line
          && text_eq p.section (codes "exclude")
          && has_prefix trimmed (codes "- ")
      then ok (add_exclude trimmed p)
      else parse_cut (is_indented line) (cut trimmed b':') p

  unfoldable pub parse_lines : List Text → Parsed → Result Parsed
  parse_lines [] p = ok p
  parse_lines (line ∷ rest) p = bind (parse_line line p) (parse_lines rest)

  -- `parse`
  unfoldable pub parse_config : Text → Config → Result Config
  parse_config data' c =
      bind (parse_lines (split_at 10 data') (record { section = []; config = c })) λ p. ok p.config

  -- The end of `LoadConfig`, with what reading the file gave and whether it has to be there.
  unfoldable pub load_config : Bool → Result Text → Result Config
  load_config must_exist (err Err.not_exist) =
      if must_exist then err Err.not_exist else ok default_config
  load_config must_exist (err e) = err e
  load_config must_exist (ok data') = parse_config data' default_config
