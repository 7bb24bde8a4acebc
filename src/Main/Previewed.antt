-- ===== src/Main/Previewed.antt =====
-- `vx diff`, and a copy with --dry-run, only look at the two sides.
use vextra.Base.{
  ◌≡◌, refl, true, ◌&&◌, Option, none, some, List, [], ◌∷◌, ◌++◌, if◌then◌else◌, Text, codes,
  text_eq,
}
use vextra.Base.Result.{Err, Result, ok, err, M, ◌>>=◌, pure, raise, attempt}
use vextra.Base.Keeps.{Keeps, Keeps-pure, Keeps-raise, Keeps-if, Keeps-bind, Keeps-attempt}
use vextra.Base.Gives.{Keeps-Does}
use vextra.Base.Dict.{text_key}
use vextra.Sync.{Outcome}
use vextra.Sync.Untouched.{run_sync-Looks}
use vextra.Transport.{Endpoint, parse_endpoint}
use vextra.Config.{Config}
use vextra.Config.Found.{of_result, load_from, find_config, config_source}
use vextra.Config.{load_config}
use vextra.Shell.{read_string}
use vextra.Flags.{XferFlags, flag_err, register, register_ssh, parse_flags, flag_result}
use vextra.Machine.{Machine}
use vextra.Session.{Session, new_session, create_session, session_fs}
use vextra.Settings.{Settings, confirm_func, build_options}
use vextra.Main.{
  endpoints, is_remote, after_run, has_diffs, in_session, outside, run_between, copy_in_session,
  transfer_parsed, cmd_transfer, is_dry, load, wants_compression,
}
use vextra.Settings.Looked.{build_options-Keeps}
use vextra.Session.Looked.{ReadOnly, InSession, session_fs-Looks}

module _ {S : Type 0} (P : S → Type 0) where
  of_result-Keeps : {A : Type 0} (r : Result A) → Keeps P (of_result r)
  of_result-Keeps (ok a) = Keeps-pure a
  of_result-Keeps (err e) = Keeps-raise e

  endpoints-Keeps : (cmd : Text) (found : List Text) → Keeps P (endpoints cmd found)
  unfolding endpoints
  endpoints-Keeps cmd [] = Keeps-raise Err.usage
  endpoints-Keeps cmd (a ∷ []) = Keeps-raise Err.usage
  endpoints-Keeps cmd (a ∷ b ∷ c ∷ rest) = Keeps-raise Err.usage
  endpoints-Keeps cmd (a ∷ b ∷ []) =
      let src = is_remote (parse_endpoint a) in
      let dst = is_remote (parse_endpoint b) in
      Keeps-if (src && dst) _ _ (Keeps-raise Err.usage) (
        Keeps-if (text_eq cmd (codes "put") && src) _ _ (Keeps-raise Err.usage)
          (Keeps-if (text_eq cmd (codes "get") && dst) _ _ (Keeps-raise Err.usage) (Keeps-pure _)))

module _ {S H : Type 0} (P : S → Type 0) where
  outside-Keeps : {A : Type 0} (m : M S A) → Keeps P m → Keeps (InSession {H = H} P) (outside m)
  outside-Keeps m k = record { at = λ (w, s) h. (k.at w h.0, h.1) }

  after_run-Keeps :
      (cmd : Text) (x : XferFlags) (out : Outcome)
      → Keeps (InSession {H = H} P) (after_run cmd x out)
  unfolding after_run
  after_run-Keeps cmd x out = go out.error
    where
      go :
          (e : Option Err)
          → Keeps (InSession {H = H} P) (elim e as (λ _. M (S × Session S H) (Unit {0})) [
            | some e ↦ raise e
            | none ↦
                if text_eq cmd (codes "diff") && (x.exit_code && has_diffs out.plan)
                then raise Err.diffs
                else pure tt
          ])
      go (some e) = Keeps-raise e
      go none =
          Keeps-if (text_eq cmd (codes "diff") && (x.exit_code && has_diffs out.plan)) _ _
            (Keeps-raise Err.diffs) (Keeps-pure tt)

module _ {S H F : Type 0} (mc : Machine S H F) (P : S → Type 0) (ro : ReadOnly mc P) where
  load-Keeps : (x : XferFlags) → Keeps P (load mc x)
  unfolding find_config load_from
  load-Keeps x =
      let (p, must) = config_source x.config_path (mc.getenv (codes "VX_CONFIG")) mc.config_dir in
      Keeps-if (text_eq p []) _ _ (Keeps-pure _) (
        Keeps-bind (attempt (mc.read_file p))
          (λ r.
            of_result
              (load_config mc.parse_float mc.negative mc.times mc.parse_bool mc.atoi must r))
          (Keeps-attempt _ (ro.files p)) λ r. of_result-Keeps P _)

  copy_in_session-Keeps :
      (cmd : Text) (x : XferFlags) (st : Settings) (eps : Endpoint × Endpoint)
      → is_dry mc cmd x ≡ true
      → Keeps (InSession P) (copy_in_session mc cmd x st eps)
  unfolding copy_in_session
  copy_in_session-Keeps cmd x st (a, b) dry =
      Keeps-Does (session_fs mc a) _ (session_fs-Looks mc P ro a) λ src ls.
        Keeps-Does (session_fs mc b) _ (session_fs-Looks mc P ro b) λ dst ld.
          Keeps-bind (outside (run_between mc cmd x st (a, b) src dst)) (after_run cmd x)
            (outside-Keeps P _ (record {
              at = λ w h. rw dry (
                  run_sync-Looks mc.path_match mc.hash mc.job_id mc.block_order mc.work_order P src
                    dst st.options ls ld a.path b.path w h);
            }))
            (after_run-Keeps P cmd x)

  -- A session begins without connections.
  in_session-Keeps :
      (cmd : Text) (x : XferFlags) (cfg : Config) (st : Settings) (eps : Endpoint × Endpoint)
      → is_dry mc cmd x ≡ true
      → Keeps P (
          in_session
            (new_session mc cfg x x.remote_root (wants_compression mc cfg x) [])
            (copy_in_session mc cmd x st eps))
  unfolding new_session create_session
  in_session-Keeps cmd x cfg st eps dry = record {
    at = λ w h. ((copy_in_session-Keeps cmd x st eps dry).at _ (h, tt)).0;
  }

  transfer_parsed-Keeps :
      (cmd input : Text) (x : XferFlags) (found : List Text)
      → is_dry mc cmd x ≡ true
      → Keeps P (transfer_parsed mc cmd input (x, found))
  unfolding transfer_parsed
  transfer_parsed-Keeps cmd input x found dry =
      Keeps-bind (endpoints cmd found) _ (endpoints-Keeps P cmd found) λ eps.
        Keeps-bind (load mc x) _ (load-Keeps x) λ cfg.
          Keeps-bind
            (build_options mc cfg x
              (confirm_func mc.to_lower x.confirmed mc.is_tty (read_string input).0))
            (λ st.
              in_session (new_session mc cfg x x.remote_root (wants_compression mc cfg x) [])
                (copy_in_session mc cmd x st eps))
            (build_options-Keeps mc P ro cfg x _) λ st. in_session-Keeps cmd x cfg st eps dry

  parsed-Keeps :
      (cmd input : Text) (r : Result (XferFlags × List Text))
      → ((x : XferFlags) (found : List Text) → r ≡ ok (x, found) → is_dry mc cmd x ≡ true)
      → Keeps P (of_result (flag_result r) >>= transfer_parsed mc cmd input)
  parsed-Keeps cmd input (err e) dry = Keeps-raise (flag_err e)
  parsed-Keeps cmd input (ok (x, found)) dry =
      transfer_parsed-Keeps cmd input x found (dry x found refl)

  -- Whatever is kept by reading the files of the flags, by dialling, and, on this side and on each other
  -- side that is dialled, by looking at paths, by listings and by signatures, is kept by the command diff,
  -- and by any copy whose flags, if they parse, ask for a dry run; whether or not the command succeeds.
  pub cmd_transfer-Looks :
      (cmd input : Text) (args : List Text)
      → ((x : XferFlags) (found : List Text)
          → parse_flags mc.parse (register cmd ++ register_ssh) args ≡ ok (x, found)
          → is_dry mc cmd x ≡ true)
      → Keeps P (cmd_transfer mc cmd args input)
  unfolding cmd_transfer
  cmd_transfer-Looks cmd input args dry = parsed-Keeps cmd input _ dry
