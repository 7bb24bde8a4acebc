-- ===== src/Shell/Removed.antt =====
-- What `rm` of the interactive session removes without being asked to.
use vextra.Base.{
  ◌≡◌, refl, sym, inl, inr, Bool, true, false, List, [], ◌∷◌, arith, Bool-cases, Elem, Text, codes,
  text_eq, eq_of_text_eq,
}
use mathlib.Core.Path.{subst}
use vextra.Base.Result.{Err, Result, err, M, ◌>>=◌, raise}
use vextra.Base.Keeps.{Keeps, Keeps-pure, Keeps-raise, Keeps-bind}
use vextra.Fs.{Fs}
use vextra.Util.{is_yes}
use vextra.Machine.{Machine}
use vextra.Shell.{
  Shell, Scope, at_world, read_string, confirm, may_remove, one_of, rm_args, rm, rm_loop,
  is_directory,
}

-- No line of the input is a yes, nor is its end.
pub data NoYes (lower : Text → Text) : Text → Type 0 where
  ended : is_yes lower [] ≡ false → NoYes lower []
  next_line :
      (t : Text)
      → is_yes lower (read_string t).0 ≡ false
      → NoYes lower (read_string t).1
      → NoYes lower t

no_yes :
    (lower : Text → Text) (t : Text)
    → NoYes lower t
    → (is_yes lower (read_string t).0 ≡ false) × NoYes lower (read_string t).1
unfolding read_string
no_yes lower [] (ended e) = (e, ended e)
no_yes lower t (next_line _ e n) = (e, n)

abbrev pub recursive_flags : List Text
recursive_flags = codes "-rf" ∷ codes "-fr" ∷ codes "-r" ∷ codes "-R" ∷ []

abbrev pub force_flags : List Text
force_flags = codes "-rf" ∷ codes "-fr" ∷ codes "-f" ∷ []

-- One of these words is among the arguments.
abbrev pub Given : List Text → List Text → Type 0
Given words args = (w : Text) × Elem w words × Elem w args

one_of-Elem : (words : List Text) (a : Text) → one_of words a ≡ true → Elem a words
one_of-Elem [] a h = cc h
one_of-Elem (w ∷ words) a h = elim (Bool-cases (text_eq a w)) [
  | inl e ↦ inl (eq_of_text_eq a w e)
  | inr n ↦ inr (one_of-Elem words a (ground (arith, n)))
]

later :
    (words : List Text) (a : Text) (args : List Text) → Given words args → Given words (a ∷ args)
later words a args (w, m, k) = (w, m, inr k)

-- The flags that `rm` reads are among its arguments.
rm_args-Given :
    (args : List Text)
    → ((rm_args args).recursive ≡ true → Given recursive_flags args)
      × ((rm_args args).force ≡ true → Given force_flags args)
unfolding rm_args
rm_args-Given [] = (λ h. cc h, λ h. cc h)
rm_args-Given (a ∷ args) =
    let (ihr, ihf) = rm_args-Given args in
    elim (Bool-cases (one_of (codes "-rf" ∷ codes "-fr" ∷ []) a)) [
      | inl e ↦
          let m = one_of-Elem (codes "-rf" ∷ codes "-fr" ∷ []) a e in
          (
            λ h. (
              a,
              elim m [ inl p ↦ inl p | inr q ↦ inr (elim q [ inl p ↦ inl p | inr z ↦ absurd z ]) ],
              inl refl,
            ),
            λ h. (
              a,
              elim m [ inl p ↦ inl p | inr q ↦ inr (elim q [ inl p ↦ inl p | inr z ↦ absurd z ]) ],
              inl refl,
            ),
          )
      | inr n ↦ elim (Bool-cases (one_of (codes "-r" ∷ codes "-R" ∷ []) a)) [
        | inl e ↦ (
          λ h. (a, inr (inr (one_of-Elem (codes "-r" ∷ codes "-R" ∷ []) a e)), inl refl),
          λ h. later force_flags a args (ihf (rw (n, e) at h)),
        )
        | inr n2 ↦ elim (Bool-cases (text_eq a (codes "-f"))) [
          | inl e ↦ (
            λ h. later recursive_flags a args (ihr (rw (n, n2, e) at h)),
            λ h. (a, inr (inr (inl (eq_of_text_eq a (codes "-f") e))), inl refl),
          )
          | inr n3 ↦ (
            λ h. later recursive_flags a args (ihr (rw (n, n2, n3) at h)),
            λ h. later force_flags a args (ihf (rw (n, n2, n3) at h)),
          )
        ]
      ]
    ]

module _ {S H F : Type 0} (mc : Machine S H F) (rfs : Fs S H) (P : S → Type 0) where
  -- The world is as the predicate says, and a recursive removal is neither forced nor confirmed.
  pub record Unasked (recursive force : Bool) (s : Shell S) : Type 0 where
    pub kept : P s.world
    pub denied : recursive ≡ true → (force ≡ false) × NoYes mc.to_lower s.input

  -- Where a recursive removal is not asked for, the guard refuses it.
  may_remove-refuses :
      (recursive force : Bool) (s : Shell S)
      → Unasked recursive force s
      → (s' : Shell S) × (may_remove mc rfs recursive force true s ≡ (err Err.other, s'))
        × Unasked recursive force s'
  unfolding may_remove confirm
  may_remove-refuses false force s u = (s, refl, u)
  may_remove-refuses true true s u = let e = (u.denied refl).0 in absurd (cc e)
  may_remove-refuses true false s u =
      let (q, m) = no_yes mc.to_lower s.input (u.denied refl).1 in
      (
        record s { input = (read_string s.input).1 },
        rw q refl,
        record { kept = u.kept; denied = λ _. (refl, m) },
      )

  module _ (recursive force : Bool) where
    Unasked-at_world :
        {A : Type 0} (m : M S A) → Keeps P m → Keeps (Unasked recursive force) (at_world m)
    Unasked-at_world m k = record {
      at = λ s u. record { kept = k.at s.world u.kept; denied = u.denied };
    }

    refused :
        (f : Unit {0} → M (Shell S) (Unit {0})) (s : Shell S)
        → Unasked recursive force s
        → Unasked recursive force ((may_remove mc rfs recursive force true >>= f) s).1
    refused f s u =
        let (s', e, v) = may_remove-refuses recursive force s u in
        subst
          (λ (x : Result (Unit {0}) × Shell S).
            Unasked recursive force (◌>>=◌ (λ (t : Shell S). x) f s).1)
          (sym e) v

    module _ (sc : Scope S H) (stats : (p : Text) → Keeps P (sc.fs.stat p false))
        (removes : (p : Text) → Keeps P (sc.fs.remove p false)) where
      passes : Keeps (Unasked recursive force) (may_remove mc rfs recursive force false)
      unfolding may_remove
      passes = Keeps-pure tt

      guarded-Unasked :
          (p : Text) (dir : Bool) (f : Unit {0} → M (Shell S) (Unit {0}))
          → ((u : Unit {0}) → Keeps (Unasked recursive force) (f u))
          → Keeps
              (Unasked recursive force)
              (may_remove mc rfs recursive force dir >>= λ _. at_world (sc.fs.remove p dir) >>= f)
      guarded-Unasked p false f k =
          Keeps-bind (may_remove mc rfs recursive force false) _ passes
            λ u. Keeps-bind (at_world (sc.fs.remove p false)) f (Unasked-at_world _ (removes p)) k
      guarded-Unasked p true f k = record {
        at = λ s u. refused (λ _. at_world (sc.fs.remove p true) >>= f) s u;
      }

      rm_loop-Unasked :
          (ts : List Text) → Keeps (Unasked recursive force) (rm_loop mc rfs sc recursive force ts)
      unfolding rm_loop
      rm_loop-Unasked [] = Keeps-pure tt
      rm_loop-Unasked (t ∷ ts) =
          Keeps-bind (at_world (sc.fs.stat (sc.resolve t) false)) _ (Unasked-at_world _ (stats _))
            λ e. guarded-Unasked (sc.resolve t) (is_directory e) _ (λ u. rm_loop-Unasked ts)

  rm-Unasked_flags :
      (sc : Scope S H) (args : List Text)
      → ((p : Text) → Keeps P (sc.fs.stat p false))
      → ((p : Text) → Keeps P (sc.fs.remove p false))
      → Keeps (Unasked (rm_args args).recursive (rm_args args).force) (rm mc rfs sc args)
  unfolding rm
  rm-Unasked_flags sc args stats removes =
      go (rm_args args).recursive (rm_args args).force (rm_args args).targets
    where
      go :
          (r f : Bool) (ts : List Text)
          → Keeps (Unasked r f) (elim ts as (λ _. M (Shell S) (Unit {0})) [
            | [] ↦ raise Err.other
            | t ∷ ts ↦ rm_loop mc rfs sc r f (t ∷ ts)
          ])
      go r f [] = Keeps-raise Err.other
      go r f (t ∷ ts) = rm_loop-Unasked r f sc stats removes (t ∷ ts)

  -- If whatever the predicate says of the world is kept by looking at paths and by each removal that is
  -- not recursive, and holds, then it holds behind the command rm, unless one of its arguments is -r, -R,
  -- -rf or -fr, and one is -f, -rf or -fr, or some line of the input may be taken for a yes.
  pub rm-Unasked :
      (sc : Scope S H) (args : List Text) (s : Shell S)
      → ((p : Text) → Keeps P (sc.fs.stat p false))
      → ((p : Text) → Keeps P (sc.fs.remove p false))
      → (Given recursive_flags args → (¬ Given force_flags args) × NoYes mc.to_lower s.input)
      → P s.world
      → P (rm mc rfs sc args s).1.world
  rm-Unasked sc args s stats removes denied h =
      let given = (rm_args-Given args).0 in
      let forced = (rm_args-Given args).1 in
      ((rm-Unasked_flags sc args stats removes).at s (record {
        kept = h;
        denied = λ e.
            let d = denied (given e) in
            (not_forced (rm_args args).force (λ f. d.0 (forced f)), d.1);
      })).kept
    where
      not_forced : (b : Bool) → ¬ (b ≡ true) → b ≡ false
      not_forced true n = absurd (n refl)
      not_forced false n = refl
