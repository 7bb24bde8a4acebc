-- ===== src/Shell.antt =====
-- shell.go: the interactive session, over the file systems of both sides. Its state is the world, the
-- remote directory, the input that is not read yet, and the lines that were printed; the prompts, the
-- help and the error texts are left out.
pub mod Columns
pub mod Commands
pub mod Settled
pub mod Ended
pub mod Removed
pub mod Grid
use vextra.Base.{
  ℕ, zero, suc, Bool, true, false, not, ◌&&◌, ◌||◌, Option, none, some, List, [], ◌∷◌, ◌++◌, map,
  str_eq, leb, any, drop, ◌==◌, if◌then◌else◌, length, Text, codes, text_eq, has_prefix,
  contains_byte,
}
use vextra.Base.Int.{ℤ, pos, ltb_ℤ}
use vextra.Base.Result.{Err, Result, ok, err, M, ◌>>=◌, ◌>>◌, pure, raise, attempt}
use vextra.Entry.{Entry, t_dir}
use vextra.Path.{dot, base, clean, is_abs, path_join}
use vextra.Fs.{Fs}
use vextra.Args.{split_args}
use vextra.Excludes.{trim_space}
use vextra.Util.{is_yes, expand_tilde, has_tilde}
use vextra.Machine.{Machine}
use vextra.Shell.Columns.{print_columns, listed_name, long_line}

pub record Shell (S : Type 0) : Type 0 where
  pub world : S
  pub rcwd : Text
  pub input : Text
  pub shown : List Text

-- A call of a file system or of the operating system.
abbrev pub at_world : {S A : Type 0} → M S A → M (Shell S) A
at_world m s = let (r, w) = m s.world in (r, record s { world = w })

abbrev pub show_lines : {S : Type 0} → List Text → M (Shell S) (Unit {0})
show_lines ls s = (ok tt, record s { shown = s.shown ++ ls })

-- `ReadString('\n')`: the line with its end, and the rest; an empty line is the end of the input.
unfoldable pub read_string : Text → Text × Text
read_string [] = ([], [])
read_string (c ∷ t) =
    let (line, rest) = read_string t in if c == 10 then (c ∷ [], t) else (c ∷ line, rest)

-- `scope`: a file system and the paths of it
pub record Scope (S H : Type 0) : Type 0 where
  pub fs : Fs S H
  pub resolve : Text → Text

abbrev pub is_directory : Entry → Bool
is_directory e = str_eq e.type t_dir

-- The options of `ls`: whether the listing is long, and the first argument that is no option.
abbrev ls_option : Text → Bool
ls_option a = has_prefix a (codes "-") && not (leb (length a) 1)

unfoldable pub ls_args : List Text → Bool × Text
ls_args [] = (false, [])
ls_args (a ∷ as') =
    let (long, target) = ls_args as' in
    if ls_option a
    then (contains_byte a b'l' || long, target)
    else (long, if text_eq a [] then target else a)

-- The options of `rm`: recursive, force, and the targets.
pub record RmArgs : Type 0 where
  pub recursive : Bool
  pub force : Bool
  pub targets : List Text

abbrev pub one_of : List Text → Text → Bool
one_of ws a = any (text_eq a) ws

unfoldable pub rm_args : List Text → RmArgs
rm_args [] = record { recursive = false; force = false; targets = [] }
rm_args (a ∷ as') =
    let rest = rm_args as' in
    if one_of (codes "-rf" ∷ codes "-fr" ∷ []) a
    then record rest { recursive = true; force = true }
    else if one_of (codes "-r" ∷ codes "-R" ∷ []) a
    then record rest { recursive = true }
    else if text_eq a (codes "-f")
    then record rest { force = true }
    else record rest { targets = a ∷ rest.targets }

module _ {S H F : Type 0} (mc : Machine S H F) (rfs : Fs S H) where
  -- `rpath`
  unfoldable pub rpath : Text → Text → Text
  rpath rcwd p =
      let q = if has_tilde p then rfs.home ++ drop 1 p else p in
      if text_eq p [] then rcwd else clean (if is_abs q then q else path_join rcwd q)

  -- `scopeOf`
  unfoldable pub scope_of : Bool → Shell S → Scope S H
  scope_of true s = record { fs = rfs; resolve = rpath s.rcwd }
  scope_of false s = record {
    fs = mc.local;
    resolve = λ p. if text_eq p [] then dot else expand_tilde mc.home p;
  }

  -- `confirm`
  unfoldable pub confirm : M (Shell S) Bool
  confirm s =
      let (line, rest) = read_string s.input in
      (ok (is_yes mc.to_lower line), record s { input = rest })

  abbrev change_to : Text → Entry → M (Shell S) (Unit {0})
  change_to target e s =
      if is_directory e then (ok tt, record s { rcwd = target }) else (err Err.other, s)

  abbrev cd_target : List Text → Shell S → Text
  cd_target [] s = rfs.home
  cd_target (a ∷ as') s = rpath s.rcwd a

  -- `cd`
  unfoldable pub cd : List Text → M (Shell S) (Unit {0})
  cd args s =
      let target = cd_target args s in (at_world (rfs.stat target true) >>= change_to target) s

  abbrev show_entries : Bool → List Entry → M (Shell S) (Unit {0})
  show_entries long es =
      show_lines
        (if long then map (long_line mc) es else print_columns mc.rune_count (map listed_name es))

  -- `ls`
  unfoldable pub ls : Scope S H → List Text → M (Shell S) (Unit {0})
  ls sc args = do
    let rp = sc.resolve ((ls_args args).1)
    e ← at_world (sc.fs.stat rp true)
    es ←
        (if is_directory e
          then at_world (sc.fs.list rp false)
          else pure (record e { path = base rp } ∷ []))
    show_entries ((ls_args args).0) es

  -- A directory is removed only as asked for.
  unfoldable pub may_remove : Bool → Bool → Bool → M (Shell S) (Unit {0})
  may_remove recursive force dir =
      if not dir
      then pure tt
      else if not recursive
      then raise Err.other
      else if force
      then pure tt
      else confirm >>= λ y. (if y then pure tt else raise Err.other)

  -- The loop over the targets of `rm`.
  unfoldable pub rm_loop : Scope S H → Bool → Bool → List Text → M (Shell S) (Unit {0})
  rm_loop sc recursive force [] = pure tt
  rm_loop sc recursive force (t ∷ ts) = do
    e ← at_world (sc.fs.stat (sc.resolve t) false)
    may_remove recursive force (is_directory e)
    at_world (sc.fs.remove (sc.resolve t) (is_directory e))
    rm_loop sc recursive force ts

  unfoldable pub rm : Scope S H → List Text → M (Shell S) (Unit {0})
  rm sc args =
      let a = rm_args args in
      elim a.targets [ [] ↦ raise Err.other | t ∷ ts ↦ rm_loop sc a.recursive a.force (t ∷ ts) ]

  abbrev move_into : Text → Text → Result Entry → Text
  move_into from to (ok e) = if is_directory e then path_join to (base from) else to
  move_into from to (err e) = to

  unfoldable pub mv : Scope S H → List Text → M (Shell S) (Unit {0})
  mv sc (a ∷ b ∷ []) = do
    r ← attempt (at_world (sc.fs.stat (sc.resolve b) true))
    at_world (sc.fs.rename (sc.resolve a) (move_into (sc.resolve a) (sc.resolve b) r))
  mv sc _ = raise Err.other

  unfoldable pub mkdir : Scope S H → List Text → M (Shell S) (Unit {0})
  mkdir sc (a ∷ []) = at_world (sc.fs.mkdir (sc.resolve a) 493)
  mkdir sc _ = raise Err.other

  -- `fileOp`
  unfoldable pub file_op : Text → Bool → List Text → M (Shell S) (Unit {0})
  file_op op remote args s =
      let sc = scope_of remote s in
      (if text_eq op (codes "mkdir")
          then mkdir sc args
          else if text_eq op (codes "rm")
          then rm sc args
          else if text_eq op (codes "mv")
          then mv sc args
          else raise Err.other)
        s
