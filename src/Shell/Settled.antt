-- ===== src/Shell/Settled.antt =====
-- The remote directory and the input of a session, over its commands; the end of a session.
use vextra.Base.{
  ℕ, ◌≤◌, ◌<◌, ◌≡◌, refl, sym, Bool, true, false, not, List, [], ◌∷◌, ◌++◌, arith, drop, ◌==◌,
  if◌then◌else◌, inl, inr, Bool-cases, length, Text, codes, text_eq,
}
use mathlib.Core.Path.{subst}
use mathlib.Core.List.{append-nil}
use vextra.Base.Result.{Err, M, raise, attempt}
use vextra.Base.Keeps.{Keeps, Keeps-pure, Keeps-raise, Keeps-attempt, Keeps-if, Keeps-bind}
use vextra.Path.{slash, join, is_abs, clean, path_join}
use vextra.Path.Rooted.{Cleaned, rooted-Cleaned}
use vextra.Fs.{Fs}
use vextra.Entry.{Entry}
use vextra.Util.{has_tilde}
use vextra.Machine.{Machine}
use vextra.Shell.{
  Shell, Scope, at_world, show_lines, read_string, rpath, confirm, change_to, cd, cd_target, ls,
  ls_args, rm_args, rm, rm_loop, may_remove, mv, mkdir, file_op, scope_of, is_directory, move_into,
}

slash-is_abs : (t : Text) → is_abs (slash ∷ t) ≡ true
unfolding is_abs
slash-is_abs [] = refl
slash-is_abs (a ∷ t) = refl

Cleaned-is_abs : (p t : Text) → Cleaned p → is_abs (p ++ t) ≡ true
Cleaned-is_abs p t c = rw c.joined (slash-is_abs (join c.names ++ t))

-- A path that is joined to an absolute one is absolute and clean.
path_join-Cleaned : (a b : Text) → Cleaned a → Cleaned (path_join a b)
unfolding path_join
path_join-Cleaned a b c = subst (λ a. Cleaned (path_join a b)) (sym c.joined) (go (join c.names) b)
  where
    go : (t b : Text) → Cleaned (path_join (slash ∷ t) b)
    go t [] = rooted-Cleaned (slash ∷ t) (slash-is_abs t)
    go t (d ∷ b) =
        rooted-Cleaned (slash ∷ (t ++ (slash ∷ d ∷ b))) (slash-is_abs (t ++ (slash ∷ d ∷ b)))

pub read_string-shorter : (t : Text) → length (read_string t).1 ≤ length t
unfolding read_string
read_string-shorter [] = omega arith
read_string-shorter (c ∷ t) = elim (Bool-cases (c == 10)) [
  | inl e ↦ rw e (omega arith)
  | inr n ↦ rw n (omega (arith, read_string-shorter t))
]

-- A line that is not empty takes a byte of the input.
pub read_string-less :
    (t : Text) → text_eq (read_string t).0 [] ≡ false → length (read_string t).1 < length t
unfolding read_string text_eq
read_string-less [] h = cc h
read_string-less (c ∷ t) h = elim (Bool-cases (c == 10)) [
  | inl e ↦ rw e (omega arith)
  | inr n ↦ rw n (omega (arith, read_string-shorter t))
]

-- The remote directory is absolute and clean, and no more than so much input is left.
pub record Settled {S : Type 0} (n : ℕ) (s : Shell S) : Type 0 where
  pub placed : Cleaned s.rcwd
  pub left : length s.input ≤ n

module _ {S : Type 0} {n : ℕ} where
  pub Settled-at_world : {A : Type 0} (m : M S A) → Keeps (Settled n) (at_world m)
  Settled-at_world m = record { at = λ s h. record { placed = h.placed; left = h.left } }

  pub Settled-show_lines : (ts : List Text) → Keeps {S = Shell S} (Settled n) (show_lines ts)
  Settled-show_lines ts = record { at = λ s h. record { placed = h.placed; left = h.left } }

module _ {S H F : Type 0} (mc : Machine S H F) (rfs : Fs S H) (h : Cleaned rfs.home) (n : ℕ) where
  rpath-Cleaned : (rcwd p : Text) → Cleaned rcwd → Cleaned (rpath mc rfs rcwd p)
  unfolding rpath
  rpath-Cleaned rcwd p c = elim (Bool-cases (text_eq p [])) [
    | inl e ↦ rw e c
    | inr e ↦ rw e (go (if has_tilde p then rfs.home ++ drop 1 p else p))
  ]
    where
      go : (q : Text) → Cleaned (clean (if is_abs q then q else path_join rcwd q))
      go q = elim (Bool-cases (is_abs q)) [
        | inl e ↦ rw e (rooted-Cleaned q e)
        | inr e ↦ rw e (
            rooted-Cleaned (path_join rcwd q) (
              rw (← append-nil (path_join rcwd q))
                (Cleaned-is_abs (path_join rcwd q) [] (path_join-Cleaned rcwd q c))))
      ]

  confirm-Settled : Keeps (Settled n) (confirm mc rfs)
  unfolding confirm
  confirm-Settled = record {
    at = λ s k. record {
      placed = k.placed;
      left = let r = read_string-shorter s.input in omega (arith, k.left, r);
    };
  }

  may_remove-Settled :
      (recursive force dir : Bool) → Keeps (Settled n) (may_remove mc rfs recursive force dir)
  unfolding may_remove
  may_remove-Settled recursive force dir = Keeps-if (not dir) _ _ (Keeps-pure tt) (
      Keeps-if (not recursive) _ _ (Keeps-raise Err.other) (
        Keeps-if force _ _ (Keeps-pure tt) (
          Keeps-bind (confirm mc rfs) _ confirm-Settled
            (λ y. Keeps-if y _ _ (Keeps-pure tt) (Keeps-raise Err.other)))))

  rm_loop-Settled :
      (sc : Scope S H) (recursive force : Bool) (ts : List Text)
      → Keeps (Settled n) (rm_loop mc rfs sc recursive force ts)
  unfolding rm_loop
  rm_loop-Settled sc recursive force [] = Keeps-pure tt
  rm_loop-Settled sc recursive force (t ∷ ts) =
      Keeps-bind (at_world (sc.fs.stat (sc.resolve t) false)) _ (Settled-at_world _) λ e.
        Keeps-bind (may_remove mc rfs recursive force (is_directory e)) _
          (may_remove-Settled recursive force (is_directory e))
          λ u.
            Keeps-bind (at_world (sc.fs.remove (sc.resolve t) (is_directory e))) _
              (Settled-at_world _) λ v. rm_loop-Settled sc recursive force ts

  rm-Settled : (sc : Scope S H) (args : List Text) → Keeps (Settled n) (rm mc rfs sc args)
  unfolding rm
  rm-Settled sc args = go (rm_args args).targets
    where
      go :
          (ts : List Text)
          → Keeps (Settled n) (elim ts as (λ _. M (Shell S) (Unit {0})) [
            | [] ↦ raise Err.other
            | t ∷ ts ↦ rm_loop mc rfs sc (rm_args args).recursive (rm_args args).force (t ∷ ts)
          ])
      go [] = Keeps-raise Err.other
      go (t ∷ ts) = rm_loop-Settled sc _ _ (t ∷ ts)

  mv-Settled : (sc : Scope S H) (args : List Text) → Keeps (Settled n) (mv mc rfs sc args)
  unfolding mv
  mv-Settled sc [] = Keeps-raise Err.other
  mv-Settled sc (a ∷ []) = Keeps-raise Err.other
  mv-Settled sc (a ∷ b ∷ []) =
      Keeps-bind (attempt (at_world (sc.fs.stat (sc.resolve b) true))) _
        (Keeps-attempt _ (Settled-at_world _))
        λ r.
          Settled-at_world
            (sc.fs.rename (sc.resolve a) (move_into mc rfs (sc.resolve a) (sc.resolve b) r))
  mv-Settled sc (a ∷ b ∷ c ∷ rest) = Keeps-raise Err.other

  mkdir-Settled : (sc : Scope S H) (args : List Text) → Keeps (Settled n) (mkdir mc rfs sc args)
  unfolding mkdir
  mkdir-Settled sc [] = Keeps-raise Err.other
  mkdir-Settled sc (a ∷ []) = Settled-at_world _
  mkdir-Settled sc (a ∷ b ∷ rest) = Keeps-raise Err.other

  pub file_op-Settled :
      (op : Text) (remote : Bool) (args : List Text)
      → Keeps (Settled n) (file_op mc rfs op remote args)
  unfolding file_op
  file_op-Settled op remote args = record {
    at = λ s k.
        (let sc = scope_of mc rfs remote s in
            Keeps-if (text_eq op (codes "mkdir")) _ _ (mkdir-Settled sc args) (
              Keeps-if (text_eq op (codes "rm")) _ _ (rm-Settled sc args) (
                Keeps-if (text_eq op (codes "mv")) _ _ (mv-Settled sc args)
                  (Keeps-raise Err.other)))).at
          s k;
  }

  pub ls-Settled : (sc : Scope S H) (args : List Text) → Keeps (Settled n) (ls mc rfs sc args)
  unfolding ls
  ls-Settled sc args =
      Keeps-bind (at_world (sc.fs.stat (sc.resolve ((ls_args args).1)) true)) _ (Settled-at_world _)
        λ e.
          Keeps-bind _ _
            (Keeps-if (is_directory e) (at_world (sc.fs.list (sc.resolve ((ls_args args).1)) false))
              _ (Settled-at_world _) (Keeps-pure _))
            λ es. Settled-show_lines _

  cd_target-Cleaned :
      (args : List Text) (s : Shell S) → Settled n s → Cleaned (cd_target mc rfs args s)
  cd_target-Cleaned [] s k = h
  cd_target-Cleaned (a ∷ rest) s k = rpath-Cleaned s.rcwd a k.placed

  change_to-Settled :
      (target : Text) (e : Entry) → Cleaned target → Keeps (Settled n) (change_to mc rfs target e)
  change_to-Settled target e c = record {
    at = λ s k. elim (Bool-cases (is_directory e)) [
      | inl d ↦ rw d (record { placed = c; left = k.left })
      | inr d ↦ rw d k
    ];
  }

  pub cd-Settled : (args : List Text) → Keeps (Settled n) (cd mc rfs args)
  unfolding cd
  cd-Settled args = record {
    at = λ s k.
        (Keeps-bind (at_world (rfs.stat (cd_target mc rfs args s) true)) _ (Settled-at_world _)
            λ e. change_to-Settled _ e (cd_target-Cleaned args s k)).at
          s k;
  }
