-- ===== src/Tests/Commands.antt =====
-- The flags, the sessions and the commands, at concrete data: a machine whose package flag knows -n only,
-- with the shelf of the plans on both sides.
use vextra.Base.{
  ℕ, ◌*◌, ◌≡◌, refl, ap, inl, inr, true, false, none, some, [], ◌∷◌, Bool-cases, if◌then◌else◌,
  length, codes, text_eq,
}
use vextra.Base.Int.{pos}
use vextra.Base.Result.{Err, ok, err, pure, raise}
use vextra.Base.Keeps.{Keeps, Keeps-pure, Keeps-raise}
use vextra.Base.Gives.{Gives}
use vextra.Base.Dict.{lookup, insert}
use vextra.Entry.{t_file}
use vextra.Build.Looked.{Looks}
use vextra.Config.{default_config}
use vextra.Config.Valid.{default_config-Valid}
use vextra.Flags.{no_flags, Parse, register, parse_flags}
use vextra.Flags.Parsed.{LeavesSuffix, Rounds, parse_flags_ends}
use vextra.Machine.{Machine}
use vextra.Session.{Session, session_fs, remote_of}
use vextra.Session.Looked.{ReadOnly}
use vextra.Settings.{build_options}
use vextra.Settings.Bounded.{Bounded, build_options-Bounded}
use vextra.Main.{cmd_transfer}
use vextra.Main.Previewed.{cmd_transfer-Looks}
use vextra.Tests.Plans.{shelf, entry_of}

-- The flags that stand first.
abbrev pub dry_flags : Parse
dry_flags fl [] x = ok (x, [])
dry_flags fl (a ∷ rest) x =
    let more = dry_flags fl rest (record x { dry = true }) in
    if text_eq a (codes "-n") then more else ok (x, a ∷ rest)

dry_flags-LeavesSuffix : LeavesSuffix dry_flags
dry_flags-LeavesSuffix fl [] x x' rest e = let h : ok (x, []) ≡ ok (x', rest) = e in ([], cc)
dry_flags-LeavesSuffix fl (a ∷ args) x x' rest e = elim (Bool-cases (text_eq a (codes "-n"))) [
  | inl q ↦
      let (before, f) =
        dry_flags-LeavesSuffix fl args (record x { dry = true }) x' rest (rw q at e) in
      (a ∷ before, ap (◌∷◌ a) f)
  | inr q ↦ let h : ok (x, a ∷ args) ≡ ok (x', rest) = rw q at e in ([], cc)
]

abbrev pub machine : Machine ℕ ℕ ℕ
machine = record {
  parse_float = λ t. some (length t);
  negative = λ n. false;
  times = λ n mult. pos (n * mult);
  parse_bool = λ t. none;
  atoi = λ t. none;
  to_lower = λ t. t;
  fields = λ t. if text_eq t [] then [] else t ∷ [];
  parse = dry_flags;
  path_match = λ p t. some (text_eq p t);
  decimal = λ n. [];
  tenths = λ n d. [];
  perm_string = λ n. [];
  format_time = λ t. [];
  rune_count = length;
  home = ok (codes "/home/me");
  config_dir = err Err.other;
  getenv = λ t. [];
  getwd = pure (codes "/tmp");
  chdir = λ d. pure tt;
  read_file = λ p. raise Err.not_exist;
  read_lines = λ p. raise Err.not_exist;
  cpus = pos 8;
  is_tty = false;
  hash = λ t. t;
  job_id = λ p n t b. p;
  block_order = λ l. l;
  work_order = λ l. l;
  local = shelf (entry_of "a" t_file ∷ []);
  dial = λ ssh host root bin z. pure (shelf []);
}

parse_flags_ends_example :
    Rounds dry_flags
      (register (codes "put"))
      (codes "a" ∷ codes "-n" ∷ codes "h:b" ∷ [])
      no_flags
      []
      (parse_flags dry_flags (register (codes "put")) (codes "a" ∷ codes "-n" ∷ codes "h:b" ∷ []))
parse_flags_ends_example =
    parse_flags_ends dry_flags dry_flags-LeavesSuffix (register (codes "put"))
      (codes "a" ∷ codes "-n" ∷ codes "h:b" ∷ [])

build_options-Bounded_example :
    Gives
      (Bounded default_config (record no_flags { block_size = codes "64K" }))
      (build_options machine default_config (record no_flags { block_size = codes "64K" }) none)
build_options-Bounded_example =
    build_options-Bounded machine default_config (record no_flags { block_size = codes "64K" }) none
      default_config-Valid

abbrev fresh : Session ℕ ℕ
fresh = record {
  config = default_config;
  ssh_prog = codes "ssh";
  ssh_args = [];
  remote_root = [];
  compress = true;
  remotes = [];
}

abbrev dialled : Session ℕ ℕ
dialled = record fresh { remotes = (codes "h", shelf []) ∷ [] }

dials_once :
    session_fs machine (record { host = codes "h"; path = codes "b" }) (0, fresh)
    ≡ (ok (shelf []), (0, dialled))
unfolding session_fs remote_of lookup insert text_eq
dials_once = refl

-- Nothing was removed from a shelf.
abbrev Whole : ℕ → Type 0
Whole removed = removed ≡ 0

shelf-Looks : Looks Whole (shelf (entry_of "a" t_file ∷ []))
shelf-Looks = record {
  stats = λ p follow. Keeps-pure _;
  lists = λ p deep. Keeps-pure _;
  signs = λ p job bs. Keeps-pure _;
}

empty-Looks : Looks Whole (shelf [])
empty-Looks = record {
  stats = λ p follow. Keeps-pure _;
  lists = λ p deep. Keeps-pure _;
  signs = λ p job bs. Keeps-pure _;
}

machine-ReadOnly : ReadOnly machine Whole
machine-ReadOnly = record {
  files = λ p. Keeps-raise Err.not_exist;
  lines = λ p. Keeps-raise Err.not_exist;
  here = shelf-Looks;
  dials = λ ssh host root bin z. record { at = λ s h. (h, empty-Looks) };
}

cmd_transfer-Looks_example :
    Keeps Whole
      (cmd_transfer machine (codes "diff") (codes "--delete" ∷ codes "a" ∷ codes "h:b" ∷ []) [])
unfolding text_eq
cmd_transfer-Looks_example =
    cmd_transfer-Looks machine Whole machine-ReadOnly (codes "diff") []
      (codes "--delete" ∷ codes "a" ∷ codes "h:b" ∷ []) (λ x found e. refl)
