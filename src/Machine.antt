-- ===== src/Machine.antt =====
-- What the commands call of Go's libraries and of the operating system, and the two file systems: an
-- interface over a world `S`, with writers `H` and floating point numbers `F`. Nothing is said of what
-- the operations do.
use vextra.Base.{ℕ, Bool, Option, List, Text}
use vextra.Base.Int.{ℤ}
use vextra.Base.Result.{Result, M}
use vextra.Fs.{Fs}
use vextra.Plan.{Action}
use vextra.Flags.{Parse}

pub record Machine (S H F : Type 0) : Type 0 where
  -- strconv
  pub parse_float : Text → Option F
  pub negative : F → Bool
  pub times : F → ℕ → ℤ
  pub parse_bool : Text → Option Bool
  pub atoi : Text → Option ℤ
  -- strings, flag, path
  pub to_lower : Text → Text
  pub fields : Text → List Text
  pub parse : Parse
  pub path_match : Text → Text → Option Bool
  -- the verbs %d and %.1f of fmt, the letters of a mode, and the format of a time; unicode/utf8
  pub decimal : ℕ → Text
  pub tenths : ℕ → ℕ → Text
  pub perm_string : ℕ → Text
  pub format_time : ℤ → Text
  pub rune_count : Text → ℕ
  -- os and bufio
  pub home : Result Text
  pub config_dir : Result Text
  pub getenv : Text → Text
  pub getwd : M S Text
  pub chdir : Text → M S (Unit {0})
  pub read_file : Text → M S Text
  pub read_lines : Text → M S (List Text)
  pub cpus : ℤ
  -- whether the standard input is a terminal
  pub is_tty : Bool
  -- the hash, the names of temporary files, and the orders that goroutines work in
  pub hash : Text → Text
  pub job_id : Text → ℕ → ℤ → Bool → Text
  pub block_order : List ℕ → List ℕ
  pub work_order : List Action → List Action
  -- `NewLocalFS("", "")`, and `DialSSH` with the command, host, root, program and compression
  pub local : Fs S H
  pub dial : List Text → Text → Text → Text → Bool → M S (Fs S H)
