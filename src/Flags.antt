-- ===== src/Flags.antt =====
-- main.go: the flags of the commands, `parseFlags` and the target of a connection. The package flag is
-- the parameter `parse`: it sets the flags that stand before the first argument that is none, and
-- gives the arguments from that one on. An unset Boolean is false, and an unset text empty.
pub mod Parsed
use vextra.Base.{
  ℕ, zero, suc, ◌≤◌, ◌≡◌, Bool, true, false, ◌&&◌, ◌||◌, List, [], ◌∷◌, ◌++◌, any, ltb, ◌==◌,
  if◌then◌else◌, length, Text, codes, text_eq, has_prefix,
}
use vextra.Base.Int.{ℤ, pos}
use vextra.Base.Result.{Err, Result, ok, err, bind}
use vextra.Util.{expand_tilde}
use vextra.Transport.Ssh.{parse_ssh_command}

-- `xferFlags`, with the Boolean and text flags in the order of the source
pub record XferFlags : Type 0 where
  pub dry : Bool
  pub del : Bool
  pub confirmed : Bool
  pub verbose : Bool
  pub quiet : Bool
  pub no_compress : Bool
  pub no_resume : Bool
  pub deep : Bool
  pub exit_code : Bool
  pub max_delete : ℤ
  pub workers : ℤ
  pub block_size : Text
  pub bwlimit : Text
  pub remote_root : Text
  pub config_path : Text
  pub excludes : List Text
  pub exclude_from : Text
  pub ssh : Text
  pub port : Text
  pub identity : Text
  pub jump : Text
  pub login : Text
  pub ssh_cfg : Text
  pub ssh_opts : List Text
  -- the variable of `Shell.transfer` for --pull
  pub pull : Bool
  -- the flags that were written
  pub set : List Text

-- `&xferFlags{}`
abbrev pub no_flags : XferFlags
no_flags = record {
  dry = false;
  del = false;
  confirmed = false;
  verbose = false;
  quiet = false;
  no_compress = false;
  no_resume = false;
  deep = false;
  exit_code = false;
  max_delete = pos 0;
  workers = pos 0;
  block_size = [];
  bwlimit = [];
  remote_root = [];
  config_path = [];
  excludes = [];
  exclude_from = [];
  ssh = [];
  port = [];
  identity = [];
  jump = [];
  login = [];
  ssh_cfg = [];
  ssh_opts = [];
  pull = false;
  set = [];
}

-- `x.set[name]`
abbrev pub is_set : Text → XferFlags → Bool
is_set name x = any (text_eq name) x.set

-- What `BoolVar`, `IntVar`, `StringVar` and `Var` of a flag set tie a name to.
pub data Var : Type 0 where
  bool_var : (Bool → XferFlags → XferFlags) → Var
  int_var : (ℤ → XferFlags → XferFlags) → Var
  string_var : (Text → XferFlags → XferFlags) → Var
  -- a `multiFlag`: `Set` is called for each value
  multi_var : (Text → XferFlags → XferFlags) → Var

abbrev pub Flag : Type 0
Flag = Text × Var

-- `Set` of `multiFlag`
abbrev pub append : List Text → Text → List Text
append m v = m ++ (v ∷ [])

abbrev pub is_mirror : Text → Bool
is_mirror cmd = text_eq cmd (codes "sync") || text_eq cmd (codes "diff")

abbrev delete_flags : List Flag
delete_flags =
    (codes "delete", bool_var λ b x. record x { del = b })
    ∷ (codes "max-delete", int_var λ n x. record x { max_delete = n })
    ∷ []

abbrev exit_code_flag : List Flag
exit_code_flag = (codes "exit-code", bool_var λ b x. record x { exit_code = b }) ∷ []

abbrev copy_flags : List Flag
copy_flags =
    (codes "y", bool_var λ b x. record x { confirmed = b })
    ∷ (codes "yes", bool_var λ b x. record x { confirmed = b })
    ∷ (codes "workers", int_var λ n x. record x { workers = n })
    ∷ (codes "block-size", string_var λ s x. record x { block_size = s })
    ∷ (codes "bwlimit", string_var λ s x. record x { bwlimit = s })
    ∷ (codes "no-compress", bool_var λ b x. record x { no_compress = b })
    ∷ (codes "no-resume", bool_var λ b x. record x { no_resume = b })
    ∷ (codes "deep", bool_var λ b x. record x { deep = b })
    ∷ (codes "exclude", multi_var λ s x. record x { excludes = append x.excludes s })
    ∷ (codes "exclude-from", string_var λ s x. record x { exclude_from = s })
    ∷ (codes "remote-root", string_var λ s x. record x { remote_root = s })
    ∷ (codes "config", string_var λ s x. record x { config_path = s })
    ∷ (codes "v", bool_var λ b x. record x { verbose = b })
    ∷ (codes "verbose", bool_var λ b x. record x { verbose = b })
    ∷ (codes "q", bool_var λ b x. record x { quiet = b })
    ∷ (codes "quiet", bool_var λ b x. record x { quiet = b })
    ∷ []

-- `register`
unfoldable pub register : Text → List Flag
register cmd =
    (codes "n", bool_var λ b x. record x { dry = b })
    ∷ (codes "dry-run", bool_var λ b x. record x { dry = b })
    ∷ ((if is_mirror cmd then delete_flags else [])
        ++ ((if text_eq cmd (codes "diff") then exit_code_flag else []) ++ copy_flags))

-- `registerSSH`
abbrev pub register_ssh : List Flag
register_ssh =
    (codes "ssh", string_var λ s x. record x { ssh = s })
    ∷ (codes "p", string_var λ s x. record x { port = s })
    ∷ (codes "port", string_var λ s x. record x { port = s })
    ∷ (codes "i", string_var λ s x. record x { identity = s })
    ∷ (codes "identity", string_var λ s x. record x { identity = s })
    ∷ (codes "J", string_var λ s x. record x { jump = s })
    ∷ (codes "jump", string_var λ s x. record x { jump = s })
    ∷ (codes "l", string_var λ s x. record x { login = s })
    ∷ (codes "F", string_var λ s x. record x { ssh_cfg = s })
    ∷ (codes "o", multi_var λ s x. record x { ssh_opts = append x.ssh_opts s })
    ∷ []

-- An option of ssh with its value, if it was written.
abbrev with_option : Text → Text → Text → List Text
with_option opt s value = if text_eq s [] then [] else opt ∷ value ∷ []

abbrev each_option : List Text → List Text
each_option [] = []
each_option (o ∷ os) = codes "-o" ∷ o ∷ each_option os

-- `sshArgs`
unfoldable pub ssh_flags : Result Text → XferFlags → List Text
ssh_flags home x =
    with_option (codes "-p") x.port x.port
    ++ (with_option (codes "-i") x.identity (expand_tilde home x.identity)
        ++ (with_option (codes "-J") x.jump x.jump
            ++ (with_option (codes "-l") x.login x.login
                ++ (with_option (codes "-F") x.ssh_cfg (expand_tilde home x.ssh_cfg)
                    ++ each_option x.ssh_opts))))

abbrev as_usage : {A : Type 0} → Result A → Result A
as_usage r = elim r [ ok a ↦ ok a | err e ↦ err Err.usage ]

abbrev one_target : List Text → Result (Text × List Text)
one_target [] = err Err.usage
one_target (p ∷ q ∷ ps) = err Err.usage
one_target (p ∷ []) =
    if has_prefix p (codes "ssh ") then as_usage (parse_ssh_command p) else ok (p, [])

-- `splitSSHTarget`
unfoldable pub split_ssh_target : List Text → Result (Text × List Text)
split_ssh_target [] = one_target []
split_ssh_target (p ∷ []) = one_target (p ∷ [])
split_ssh_target (p ∷ q ∷ ps) = one_target (if text_eq p (codes "ssh") then q ∷ ps else p ∷ q ∷ ps)

-- `flagErr`
abbrev pub flag_err : Err → Err
flag_err Err.help = Err.help
flag_err e = Err.usage

abbrev pub flag_result : {A : Type 0} → Result A → Result A
flag_result r = elim r [ ok a ↦ ok a | err e ↦ err (flag_err e) ]

-- What `fl.Parse` gives: the flags, the set ones among them, and the rest of the arguments.
abbrev pub Parse : Type 0
Parse = List Flag → List Text → XferFlags → Result (XferFlags × List Text)

module _ (parse : Parse) where
  -- The loop of `parseFlags`, on fuel.
  unfoldable pub parse_loop :
      ℕ → List Flag → List Text → XferFlags → List Text → Result (XferFlags × List Text)
  parse_loop zero fl args x found = err Err.other
  parse_loop (suc n) fl args x found = bind (parse fl args x) λ (x', rest). elim rest [
    | [] ↦ ok (x', found)
    | a ∷ more ↦ parse_loop n fl more x' (found ++ (a ∷ []))
  ]

  -- `parseFlags`
  unfoldable pub parse_flags : List Flag → List Text → Result (XferFlags × List Text)
  parse_flags fl args = parse_loop (suc (length args)) fl args no_flags []
