-- ===== src/Shell/Commands.antt =====
-- shell.go: `transfer`, `exec` and `RunShell`. The bytes on the wire and all that a run prints are left
-- out, and so are the greeting and the prompt.
use vextra.Base.{
  ℕ, zero, suc, Bool, true, false, not, ◌&&◌, ◌||◌, Option, none, some, List, [], ◌∷◌, ◌++◌, drop,
  ◌==◌, if◌then◌else◌, length, Text, codes, text_eq, has_prefix,
}
use vextra.Base.Int.{pos, ltb_ℤ}
use vextra.Base.Result.{Err, Result, ok, err, M, ◌>>=◌, pure, raise}
use vextra.Path.{base}
use vextra.Fs.{Fs}
use vextra.Args.{split_args}
use vextra.Excludes.{trim_space}
use vextra.Plan.{Options, Plan}
use vextra.Sync.{run_sync}
use vextra.Config.{Config}
use vextra.Util.{is_yes, expand_tilde}
use vextra.Flags.{XferFlags, Flag, bool_var, register, is_mirror, parse_flags}
use vextra.Machine.{Machine}
use vextra.Settings.{Settings, build_options}
use vextra.Config.Found.{of_result}
use vextra.Shell.{
  one_of, Shell, Scope, at_world, show_lines, read_string, scope_of, cd, ls, file_op,
}

-- The question of `checkSafety` is asked: something is deleted, within the limit, and a confirmation
-- is wanted.
unfoldable pub asks : Plan → Options → Bool
asks p o =
    not (p.deletes == 0)
    && (not (not (ltb_ℤ o.max_delete (pos 0)) && ltb_ℤ o.max_delete (pos p.deletes))
        && (o.confirm_mass && not (ltb_ℤ (pos p.deletes) o.confirm_over)))

abbrev pub pull_flag : List Flag
pull_flag = (codes "pull", bool_var λ b x. record x { pull = b }) ∷ []

-- The flags of `transfer`.
abbrev pub shell_flags : Text → List Flag
shell_flags cmd = register cmd ++ (if is_mirror cmd then pull_flag else [])

-- The source and the destination, as they were written.
unfoldable pub copy_args : List Text → Option (Text × Text)
copy_args (src ∷ []) = some (src, base src)
copy_args (src ∷ dst ∷ []) = some (src, dst)
copy_args _ = none

-- The line of an answer, if it was read.
unfoldable pub after_question : {S : Type 0} → Bool → Shell S → Shell S
after_question asked s =
    let (line, rest) = read_string s.input in if asked then record s { input = rest } else s

abbrev pub outcome_result : {S : Type 0} → Option Err → M S (Unit {0})
outcome_result o = elim o [ none ↦ pure tt | some e ↦ raise e ]

abbrev pub was_asked : Option Plan → Bool → Options → Bool
was_asked none dry o = false
was_asked (some p) dry o = not dry && asks p o

abbrev pub usage_result : {A : Type 0} → Result A → Result A
usage_result r = elim r [ ok a ↦ ok a | err e ↦ err Err.usage ]

abbrev pub of_option : {S A : Type 0} → Option A → M S A
of_option o = elim o [ none ↦ raise Err.other | some a ↦ pure a ]

-- `exec` has no line to read, or has the arguments of one.
abbrev pub is_blank : Text → Bool
is_blank line = text_eq line [] || has_prefix line (codes "#")

abbrev pub leave_words : List Text
leave_words = codes "exit" ∷ codes "quit" ∷ codes "bye" ∷ []

abbrev pub file_words : List Text
file_words = codes "mkdir" ∷ codes "rm" ∷ codes "mv" ∷ []

abbrev pub local_words : List Text
local_words = codes "lmkdir" ∷ codes "lrm" ∷ codes "lmv" ∷ []

abbrev pub copy_words : List Text
copy_words = codes "get" ∷ codes "put" ∷ codes "sync" ∷ codes "diff" ∷ []

abbrev pub or_home : List Text → Text
or_home [] = codes "~"
or_home (a ∷ as') = a

module _ {S H F : Type 0} (mc : Machine S H F) (cfg : Config) (rfs : Fs S H) where
  -- The call of `Run`, with the answer that the next line of the input would give.
  unfoldable pub run_copy :
      Scope S H → Scope S H → Text → Text → Bool → XferFlags → Settings → M (Shell S) (Unit {0})
  run_copy src dst src_arg dst_arg dry x st s =
      let (out, w) =
        run_sync mc.path_match mc.hash mc.job_id mc.block_order mc.work_order src.fs dst.fs
          st.options (src.resolve src_arg) (dst.resolve dst_arg) dry s.world in
      outcome_result out.error (
        after_question (not x.confirmed && was_asked out.plan dry st.options)
          (record s { world = w }))

  -- `x.yes`, or the answer of the next line
  abbrev pub answer : XferFlags → Shell S → Option Bool
  answer x s = some (x.confirmed || is_yes mc.to_lower (read_string s.input).0)

  unfoldable pub copy_between : Text → XferFlags → Text × Text → M (Shell S) (Unit {0})
  copy_between cmd x (src_arg, dst_arg) s =
      let pull = text_eq cmd (codes "get") || x.pull in
      let src = scope_of mc rfs pull s in
      let dst = scope_of mc rfs (not pull) s in
      let dry = text_eq cmd (codes "diff") || x.dry in
      (at_world (build_options mc cfg x (answer x s)) >>= run_copy src dst src_arg dst_arg dry x) s

  abbrev pub copy_parsed : Text → XferFlags × List Text → M (Shell S) (Unit {0})
  copy_parsed cmd (x, found) = of_option (copy_args found) >>= copy_between cmd x

  -- `transfer`
  unfoldable pub transfer : Text → List Text → M (Shell S) (Unit {0})
  transfer cmd args =
      of_result (usage_result (parse_flags mc.parse (shell_flags cmd) args)) >>= copy_parsed cmd

  abbrev pub local_op : Text → List Text → M (Shell S) (Unit {0})
  local_op c rest = file_op mc rfs (drop 1 c) false rest

  -- A command that does not leave the session.
  unfoldable pub command : Text → List Text → M (Shell S) (Unit {0})
  command c rest s =
      (if one_of (codes "help" ∷ codes "?" ∷ []) c
          then pure tt
          else if text_eq c (codes "pwd")
          then show_lines (s.rcwd ∷ [])
          else if text_eq c (codes "lpwd")
          then at_world mc.getwd >>= (λ d. show_lines (d ∷ []))
          else if text_eq c (codes "cd")
          then cd mc rfs rest
          else if text_eq c (codes "lcd")
          then at_world (mc.chdir (expand_tilde mc.home (or_home rest)))
          else if text_eq c (codes "ls")
          then ls mc rfs (scope_of mc rfs true s) rest
          else if text_eq c (codes "lls")
          then ls mc rfs (scope_of mc rfs false s) rest
          else if one_of file_words c
          then file_op mc rfs c true rest
          else if one_of local_words c
          then local_op c rest
          else if one_of copy_words c
          then transfer c rest
          else raise Err.other)
        s

  unfoldable pub exec_args : List Text → M (Shell S) Bool
  exec_args [] = pure false
  exec_args (c ∷ rest) =
      if one_of leave_words c then pure true else command c rest >>= λ _. pure false

  -- `exec`: whether the session ends
  unfoldable pub exec : Text → M (Shell S) Bool
  exec line = if is_blank line then pure false else of_result (split_args line) >>= exec_args

  -- What the loop does with the result of a command: it ends with a result, or goes on.
  abbrev pub ends : Result Bool → Option (Result (Unit {0}))
  ends (ok quit) = if quit then some (ok tt) else none
  ends (err Err.conn) = some (err Err.conn)
  ends (err e) = none

  -- The loop of `RunShell`, on fuel; none, if the fuel runs out.
  unfoldable pub shell_loop : ℕ → Shell S → Option (Result (Unit {0}) × Shell S)
  shell_loop zero s = none
  shell_loop (suc n) s =
      let (line, rest) = read_string s.input in
      let (r, s') = exec (trim_space line) (record s { input = rest }) in
      let more = shell_loop n s' in
      if text_eq line []
      then some (ok tt, s)
      else elim (ends r) [ none ↦ more | some q ↦ some (q, s') ]

  -- `RunShell`, behind the dial of the host
  unfoldable pub run_shell : Text → S → Option (Result (Unit {0}) × Shell S)
  run_shell input w =
      shell_loop (suc (length input))
        (record { world = w; rcwd = rfs.home; input = input; shown = [] })
