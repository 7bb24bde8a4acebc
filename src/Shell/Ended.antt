-- ===== src/Shell/Ended.antt =====
-- The end of a session, and the remote directory at any of its commands.
use vextra.Base.{
  ℕ, zero, suc, ◌<◌, ◌≡◌, refl, Bool, true, false, not, ◌||◌, Option, none, some, List, [], ◌∷◌,
  arith, drop, if◌then◌else◌, inl, inr, Bool-cases, length, Text, codes, text_eq,
}
use vextra.Base.Result.{Err, Result, ok, err}
use vextra.Base.Keeps.{Keeps, Keeps-pure, Keeps-raise, Keeps-if, Keeps-bind}
use vextra.Path.Rooted.{Cleaned}
use vextra.Fs.{Fs}
use vextra.Args.{split_args}
use vextra.Excludes.{trim_space}
use vextra.Config.{Config}
use vextra.Flags.{XferFlags, parse_flags}
use vextra.Machine.{Machine}
use vextra.Settings.{Settings, build_options}
use vextra.Config.Found.{of_result}
use vextra.Shell.{one_of, Shell, Scope, at_world, read_string, scope_of}
use vextra.Shell.Commands.{
  after_question, outcome_result, of_option, usage_result, run_copy, answer, copy_between,
  copy_parsed, copy_args, transfer, shell_flags, command, exec_args, exec, shell_loop, run_shell,
  ends, is_blank, file_words, local_words, copy_words, leave_words,
}
use vextra.Shell.Settled.{
  Settled, Settled-at_world, Settled-show_lines, read_string-shorter, read_string-less,
  file_op-Settled, ls-Settled, cd-Settled,
}

module _ {S : Type 0} {n : ℕ} where
  after_question-Settled :
      (asked : Bool) (s : Shell S) → Settled n s → Settled n (after_question asked s)
  unfolding after_question
  after_question-Settled true s k = record {
    placed = k.placed;
    left = let r = read_string-shorter s.input in omega (arith, k.left, r);
  }
  after_question-Settled false s k = k

  of_result-Settled : {A : Type 0} (r : Result A) → Keeps {S = Shell S} (Settled n) (of_result r)
  of_result-Settled (ok a) = Keeps-pure a
  of_result-Settled (err e) = Keeps-raise e

  of_option-Settled : {A : Type 0} (o : Option A) → Keeps {S = Shell S} (Settled n) (of_option o)
  of_option-Settled none = Keeps-raise Err.other
  of_option-Settled (some a) = Keeps-pure a

  outcome_result-Settled : (e : Option Err) → Keeps {S = Shell S} (Settled n) (outcome_result e)
  outcome_result-Settled none = Keeps-pure tt
  outcome_result-Settled (some e) = Keeps-raise e

module _ {S H F : Type 0} (mc : Machine S H F) (cfg : Config) (rfs : Fs S H) (h : Cleaned rfs.home)
    (n : ℕ) where
  run_copy-Settled :
      (src dst : Scope S H) (a b : Text) (dry : Bool) (x : XferFlags) (st : Settings)
      → Keeps (Settled n) (run_copy mc cfg rfs src dst a b dry x st)
  unfolding run_copy
  run_copy-Settled src dst a b dry x st = record {
    at = λ s k.
        (outcome_result-Settled _).at _
          (after_question-Settled _ _ (record { placed = k.placed; left = k.left }));
  }

  copy_between-Settled :
      (cmd : Text) (x : XferFlags) (args : Text × Text)
      → Keeps (Settled n) (copy_between mc cfg rfs cmd x args)
  unfolding copy_between
  copy_between-Settled cmd x (a, b) = record {
    at = λ s k.
        (let pull = text_eq cmd (codes "get") || x.pull in
            let dry = text_eq cmd (codes "diff") || x.dry in
            Keeps-bind (at_world (build_options mc cfg x (answer mc cfg rfs x s)))
              (run_copy mc cfg rfs (scope_of mc rfs pull s) (scope_of mc rfs (not pull) s) a b dry
                x)
              (Settled-at_world _) (run_copy-Settled _ _ a b dry x)).at
          s k;
  }

  transfer-Settled :
      (cmd : Text) (args : List Text) → Keeps (Settled n) (transfer mc cfg rfs cmd args)
  unfolding transfer
  transfer-Settled cmd args =
      Keeps-bind (of_result (usage_result (parse_flags mc.parse (shell_flags cmd) args)))
        (copy_parsed mc cfg rfs cmd) (of_result-Settled _)
        λ (x, found).
          Keeps-bind (of_option (copy_args found)) (copy_between mc cfg rfs cmd x)
            (of_option-Settled _) (copy_between-Settled cmd x)

  command-Settled : (c : Text) (rest : List Text) → Keeps (Settled n) (command mc cfg rfs c rest)
  unfolding command
  command-Settled c rest = record {
    at = λ s k.
        (Keeps-if (one_of (codes "help" ∷ codes "?" ∷ []) c) _ _ (Keeps-pure tt) (
            Keeps-if (text_eq c (codes "pwd")) _ _ (Settled-show_lines _) (
              Keeps-if (text_eq c (codes "lpwd")) _ _
                (Keeps-bind (at_world mc.getwd) _ (Settled-at_world _) λ d. Settled-show_lines _)
                (Keeps-if (text_eq c (codes "cd")) _ _ (cd-Settled mc rfs h n rest) (
                  Keeps-if (text_eq c (codes "lcd")) _ _ (Settled-at_world _) (
                    Keeps-if (text_eq c (codes "ls")) _ _ (ls-Settled mc rfs h n _ rest) (
                      Keeps-if (text_eq c (codes "lls")) _ _ (ls-Settled mc rfs h n _ rest) (
                        Keeps-if (one_of file_words c) _ _ (file_op-Settled mc rfs h n c true rest)
                          (Keeps-if (one_of local_words c) _ _
                            (file_op-Settled mc rfs h n (drop 1 c) false rest)
                            (Keeps-if (one_of copy_words c) _ _ (transfer-Settled c rest)
                              (Keeps-raise Err.other))))))))))).at
          s k;
  }

  exec_args-Settled : (args : List Text) → Keeps (Settled n) (exec_args mc cfg rfs args)
  unfolding exec_args
  exec_args-Settled [] = Keeps-pure false
  exec_args-Settled (c ∷ rest) =
      Keeps-if (one_of leave_words c) _ _ (Keeps-pure true)
        (Keeps-bind (command mc cfg rfs c rest) _ (command-Settled c rest) λ u. Keeps-pure false)

  exec-Settled : (line : Text) → Keeps (Settled n) (exec mc cfg rfs line)
  unfolding exec
  exec-Settled line =
      Keeps-if (is_blank line) _ _ (Keeps-pure false)
        (Keeps-bind (of_result (split_args line)) _ (of_result-Settled _) exec_args-Settled)

module _ {S H F : Type 0} (mc : Machine S H F) (cfg : Config) (rfs : Fs S H)
    (h : Cleaned rfs.home) where
  -- A round of the loop has an end.
  Ended : Option (Result (Unit {0}) × Shell S) → Type 0
  Ended x = (r : Result (Unit {0})) × (s : Shell S) × (x ≡ some (r, s)) × Cleaned s.rcwd

  go_on :
      (line : Text) (s s' : Shell S) (r : Option (Result (Unit {0})))
      (more : Option (Result (Unit {0}) × Shell S))
      → Cleaned s.rcwd
      → Cleaned s'.rcwd
      → (text_eq line [] ≡ false → Ended more)
      → Ended (
          if text_eq line []
          then some (ok tt, s)
          else elim r as (λ _. Option (Result (Unit {0}) × Shell S)) [
            | none ↦ more
            | some q ↦ some (q, s')
          ])
  unfolding Ended
  go_on line s s' r more c c' k = elim (Bool-cases (text_eq line [])) [
    | inl e ↦ rw e (ok tt, s, refl, c)
    | inr e ↦ rw e (next r (k e))
  ]
    where
      next :
          (r : Option (Result (Unit {0})))
          → Ended more
          → Ended (elim r as (λ _. Option (Result (Unit {0}) × Shell S)) [
            | none ↦ more
            | some q ↦ some (q, s')
          ])
      next none m = m
      next (some q) m = (q, s', refl, c')

  shell_loop-Ended :
      (n : ℕ) (s : Shell S)
      → length s.input < n
      → Cleaned s.rcwd
      → Ended (shell_loop mc cfg rfs n s)
  unfolding shell_loop
  shell_loop-Ended zero s l c = absurd (omega arith)
  shell_loop-Ended (suc n) s l c =
      let line = (read_string s.input).0 in
      let rest = (read_string s.input).1 in
      let before = record s { input = rest } in
      let after =
        (exec-Settled mc cfg rfs h (length rest) (trim_space line)).at before
          (record { placed = c; left = omega arith }) in
      let x = exec mc cfg rfs (trim_space line) before in
      go_on line s (x.1) (ends mc cfg rfs (x.0)) (shell_loop mc cfg rfs n (x.1)) c after.placed
        (λ e.
          let less = read_string-less s.input e in
          shell_loop-Ended n (x.1) (omega (arith, less, after.left)) after.placed)

  -- If the home of the other side is an absolute, clean path, a session ends within as many rounds as its
  -- input has bytes and one more, whatever the two sides answer, and its remote directory is then an
  -- absolute and clean path.
  pub run_shell_ends :
      (input : Text) (w : S)
      → (r : Result (Unit {0})) × (s : Shell S) × (run_shell mc cfg rfs input w ≡ some (r, s))
        × Cleaned s.rcwd
  unfolding run_shell Ended
  run_shell_ends input w = shell_loop-Ended (suc (length input)) _ (omega arith) h
