-- ===== src/Session.antt =====
-- `Session` of transport.go: the ssh command of a run, and the connections, one for each host. Closing
-- the connections at the end is left out.
pub mod Dialed
pub mod Looked
use vextra.Base.{
  ℕ, Bool, Option, none, some, List, [], ◌∷◌, ◌++◌, map, if◌then◌else◌, Text, codes, text_eq,
}
use vextra.Base.Result.{Result, ok, err, M, ◌>>=◌, pure}
use vextra.Base.Dict.{Dict, text_key, lookup, insert}
use vextra.Config.{Config}
use vextra.Fs.{Fs}
use vextra.Transport.{Endpoint}
use vextra.Util.{expand_tilde}
use vextra.Flags.{XferFlags, ssh_flags}
use vextra.Machine.{Machine}

-- `SSH` has a first element, the program.
pub record Session (S H : Type 0) : Type 0 where
  pub config : Config
  pub ssh_prog : Text
  pub ssh_args : List Text
  pub remote_root : Text
  pub compress : Bool
  pub remotes : Dict Text (Fs S H)

abbrev pub first_set : Text → Text → Text
first_set a b = if text_eq a [] then b else a

abbrev or_ssh : List Text → Text × List Text
or_ssh [] = (codes "ssh", [])
or_ssh (p ∷ ps) = (p, ps)

-- `append(flags, pasted...)` in front of the arguments
abbrev pub add_ssh_options : {S H : Type 0} → List Text → Session S H → Session S H
add_ssh_options opts s = record s { ssh_args = opts ++ s.ssh_args }

-- The end of a dial: the file system of the host is kept.
abbrev pub dialed :
    {S H : Type 0} → Text → Session S H → Result (Fs S H) × S → Result (Fs S H) × (S × Session S H)
dialed host s (ok r, w) = (ok r, (w, record s { remotes = insert host r s.remotes }))
dialed host s (err e, w) = (err e, (w, s))

module _ {S H F : Type 0} (mc : Machine S H F) where
  -- `NewSession`, from the words of the ssh command
  unfoldable pub create_session : Config → Text → Text → Bool → Session S H
  create_session cfg ssh_flag remote_root compress =
      let cmd = first_set (first_set ssh_flag (mc.getenv (codes "VX_SSH"))) cfg.ssh in
      let (prog, args) = or_ssh (mc.fields cmd) in
      record {
        config = cfg;
        ssh_prog = expand_tilde mc.home prog;
        ssh_args = map (expand_tilde mc.home) args;
        remote_root = remote_root;
        compress = compress;
        remotes = [];
      }

  -- `newSession` of main.go
  unfoldable pub new_session : Config → XferFlags → Text → Bool → List Text → Session S H
  new_session cfg x remote_root compress pasted =
      add_ssh_options (ssh_flags mc.home x ++ pasted)
        (create_session cfg x.ssh remote_root compress)

  -- `Session.FS` of a host
  unfoldable pub remote_of :
      Text → Option (Fs S H) → S × Session S H → Result (Fs S H) × (S × Session S H)
  remote_of host (some r) (w, s) = (ok r, (w, s))
  remote_of host none (w, s) =
      dialed host s
        (mc.dial (s.ssh_prog ∷ s.ssh_args) host s.remote_root s.config.remote_bin s.compress w)

  -- `Session.FS`
  unfoldable pub session_fs : Endpoint → M (S × Session S H) (Fs S H)
  session_fs ep (w, s) =
      if text_eq ep.host []
      then (ok mc.local, (w, s))
      else remote_of ep.host (lookup ep.host s.remotes) (w, s)
