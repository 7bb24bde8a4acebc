-- ===== src/Main.antt =====
-- main.go: the commands and their exit codes. The commands `agent` and `install-remote` are arguments of
-- `run`. What is printed, and closing the connections at the end, are left out.
pub mod Previewed
use vextra.Base.{
  ℕ, Bool, true, false, not, ◌&&◌, ◌||◌, Option, none, some, List, [], ◌∷◌, ◌++◌, any,
  if◌then◌else◌, Text, codes, text_eq,
}
use vextra.Base.Result.{Err, Result, ok, err, M, ◌>>=◌, ◌>>◌, pure, raise}
use vextra.Fs.{Fs}
use vextra.Plan.{Plan, has_changes}
use vextra.Sync.{Outcome, run_sync}
use vextra.Transport.{Endpoint, parse_endpoint}
use vextra.Config.{Config}
use vextra.Config.Found.{find_config, of_result}
use vextra.Flags.{
  XferFlags, Flag, bool_var, string_var, register, register_ssh, parse_flags, flag_result,
  split_ssh_target,
}
use vextra.Machine.{Machine}
use vextra.Session.{Session, new_session, session_fs}
use vextra.Settings.{Settings, build_options, confirm_func}
use vextra.Shell.{read_string, one_of}
use vextra.Shell.Commands.{run_shell}

-- `exitCode`
unfoldable pub exit_code : Option Err → ℕ
exit_code none = 0
exit_code (some Err.diffs) = 10
exit_code (some Err.usage) = 2
exit_code (some Err.conn) = 3
exit_code (some Err.verify) = 4
exit_code (some Err.safety) = 5
exit_code (some Err.partial_failure) = 6
exit_code (some _) = 1

abbrev pub is_remote : Endpoint → Bool
is_remote ep = not (text_eq ep.host [])

-- The endpoints of a copy, unless the command does not take them.
unfoldable pub endpoints : {S : Type 0} → Text → List Text → M S (Endpoint × Endpoint)
endpoints cmd (a ∷ b ∷ []) =
    let src = parse_endpoint a in
    let dst = parse_endpoint b in
    if is_remote src && is_remote dst
    then raise Err.usage
    else if text_eq cmd (codes "put") && is_remote src
    then raise Err.usage
    else if text_eq cmd (codes "get") && is_remote dst
    then raise Err.usage
    else pure (src, dst)
endpoints cmd _ = raise Err.usage

-- `res.Plan.HasChanges() || len(res.Plan.Extra) > 0`, if there is a plan
unfoldable pub has_diffs : Option Plan → Bool
has_diffs none = false
has_diffs (some p) = has_changes p || (elim p.extra [ [] ↦ false | _ ∷ _ ↦ true ])

-- What follows `Run`.
unfoldable pub after_run : {S : Type 0} → Text → XferFlags → Outcome → M S (Unit {0})
after_run cmd x out = elim out.error [
  | some e ↦ raise e
  | none ↦
      if text_eq cmd (codes "diff") && (x.exit_code && has_diffs out.plan)
      then raise Err.diffs
      else pure tt
]

-- A computation in a session that ends with it.
abbrev pub in_session : {S X A : Type 0} → X → M (S × X) A → M S A
in_session x m w = let (r, (w', x')) = m (w, x) in (r, w')

-- A computation over the world, in a session.
abbrev pub outside : {S X A : Type 0} → M S A → M (S × X) A
outside m (w, x) = let (r, w') = m w in (r, (w', x))

-- A computation that does not fail.
abbrev pub total : {S A : Type 0} → (S → A × S) → M S A
total f w = let (a, w') = f w in (ok a, w')

abbrev config_flag : List Flag
config_flag = (codes "config", string_var λ s x. record x { config_path = s }) ∷ []

abbrev connect_flags : List Flag
connect_flags =
    register_ssh
    ++ ((codes "remote-root", string_var λ s x. record x { remote_root = s })
        ∷ (config_flag
            ++ ((codes "no-compress", bool_var λ b x. record x { no_compress = b }) ∷ [])))

abbrev wants_show : List Text → Result (List Text)
wants_show [] = err Err.usage
wants_show (a ∷ rest) = if text_eq a (codes "show") then ok rest else err Err.usage

abbrev shell_result : {X : Type 0} → Option (Result (Unit {0}) × X) → Result (Unit {0})
shell_result o = elim o [ none ↦ err Err.other | some (r, s) ↦ r ]

module _ {S H F : Type 0} (mc : Machine S H F) where
  -- `LoadConfig`
  abbrev pub load : XferFlags → M S Config
  load x =
      find_config mc.parse_float mc.negative mc.times mc.parse_bool mc.atoi mc.read_file
        x.config_path (mc.getenv (codes "VX_CONFIG")) mc.config_dir

  -- `cfg.Compression != "off" && !x.noCompress`
  abbrev pub wants_compression : Config → XferFlags → Bool
  wants_compression cfg x = not (text_eq cfg.compression (codes "off")) && not x.no_compress

  abbrev pub is_dry : Text → XferFlags → Bool
  is_dry cmd x = text_eq cmd (codes "diff") || x.dry

  abbrev pub run_between :
      Text → XferFlags → Settings → Endpoint × Endpoint → Fs S H → Fs S H → M S Outcome
  run_between cmd x st (src_ep, dst_ep) src dst = total (
      run_sync mc.path_match mc.hash mc.job_id mc.block_order mc.work_order src dst st.options
        src_ep.path dst_ep.path (is_dry cmd x))

  -- The part of `cmdTransfer` in a session.
  unfoldable pub copy_in_session :
      Text → XferFlags → Settings → Endpoint × Endpoint → M (S × Session S H) (Unit {0})
  copy_in_session cmd x st (src_ep, dst_ep) = do
    src ← session_fs mc src_ep
    dst ← session_fs mc dst_ep
    out ← outside (run_between cmd x st (src_ep, dst_ep) src dst)
    after_run cmd x out

  -- `cmdTransfer` behind its flags, with the standard input
  unfoldable pub transfer_parsed : Text → Text → XferFlags × List Text → M S (Unit {0})
  transfer_parsed cmd input (x, found) = do
    eps ← endpoints cmd found
    cfg ← load x
    st ←
        build_options mc cfg x
          (confirm_func mc.to_lower x.confirmed mc.is_tty (read_string input).0)
    in_session (new_session mc cfg x x.remote_root (wants_compression cfg x) [])
        (copy_in_session cmd x st eps)

  -- `cmdTransfer`
  unfoldable pub cmd_transfer : Text → List Text → Text → M S (Unit {0})
  cmd_transfer cmd args input =
      of_result (flag_result (parse_flags mc.parse (register cmd ++ register_ssh) args))
      >>= transfer_parsed cmd input

  -- `RunShell`
  abbrev shell_in_session : Config → Text → Text → M (S × Session S H) (Unit {0})
  shell_in_session cfg host input = do
    rfs ← session_fs mc (record { host = host; path = [] })
    (λ (w, s).
        let out = run_shell mc cfg rfs input w in
        (shell_result out, (elim out [ none ↦ w | some (r, sh) ↦ sh.world ], s)))

  -- `cmdConnect`
  unfoldable pub cmd_connect : List Text → Text → M S (Unit {0})
  cmd_connect args input = do
    parsed ← of_result (flag_result (parse_flags mc.parse connect_flags args))
    let x = parsed.0
    target ← of_result (split_ssh_target (parsed.1))
    cfg ← load x
    in_session (new_session mc cfg x x.remote_root (wants_compression cfg x) (target.1))
        (shell_in_session cfg (target.0) input)

  -- `cmdConfig`: the configuration that is printed
  unfoldable pub cmd_config : List Text → M S Config
  cmd_config args = do
    rest ← of_result (wants_show args)
    parsed ← of_result (flag_result (parse_flags mc.parse config_flag rest))
    load (parsed.0)

  -- The switch of `run`, with the commands `agent` and `install-remote`.
  unfoldable pub run_command :
      (List Text → M S (Unit {0}))
      → (List Text → M S (Unit {0}))
      → Text
      → List Text
      → Text
      → M S (Unit {0})
  run_command agent install cmd rest input =
      if one_of (codes "put" ∷ codes "get" ∷ codes "sync" ∷ codes "diff" ∷ []) cmd
      then cmd_transfer cmd rest input
      else if text_eq cmd (codes "connect")
      then cmd_connect rest input
      else if text_eq cmd (codes "config")
      then cmd_config rest >>= (λ _. pure tt)
      else if text_eq cmd (codes "agent")
      then agent rest
      else if text_eq cmd (codes "install-remote")
      then install rest
      else if one_of
          (codes "version"
            ∷ codes "--version"
            ∷ codes "-V"
            ∷ codes "help"
            ∷ codes "-h"
            ∷ codes "--help"
            ∷ [])
          cmd
      then pure tt
      else raise Err.usage

  -- The end of `run`: help that was asked for is no error.
  unfoldable pub code_of : Result (Unit {0}) → ℕ
  code_of (ok u) = exit_code none
  code_of (err Err.help) = exit_code none
  code_of (err e) = exit_code (some e)

  -- `run`: the exit code
  unfoldable pub run :
      (List Text → M S (Unit {0})) → (List Text → M S (Unit {0})) → List Text → Text → S → ℕ × S
  run agent install [] input w = (exit_code (some Err.usage), w)
  run agent install (cmd ∷ rest) input w =
      let (r, w') = run_command agent install cmd rest input w in (code_of r, w')
