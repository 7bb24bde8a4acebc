-- ===== src/Flags/Parsed.antt =====
-- The loop of `parseFlags`.
use vextra.Base.{
  ℕ, zero, suc, ◌≤◌, ◌<◌, ◌≡◌, refl, ap, List, [], ◌∷◌, ◌++◌, arith, length, Text, length-append,
}
use vextra.Base.Result.{Err, Result, ok, err}
use vextra.Flags.{XferFlags, no_flags, Flag, Parse, parse_loop, parse_flags}

-- What the package flag says of `Args`: these are the arguments that remain, a suffix of those given.
abbrev pub LeavesSuffix : Parse → Type 0
LeavesSuffix parse =
    (fl : List Flag) (args : List Text) (x x' : XferFlags) (rest : List Text)
    → parse fl args x ≡ ok (x', rest)
    → (before : List Text) × (args ≡ before ++ rest)

-- Rounds of the loop that lead to a result: each hands the arguments that remain to the package flag,
-- and takes the first of those that it leaves as positional.
pub data Rounds (parse : Parse) (fl : List Flag)
    : List Text → XferFlags → List Text → Result (XferFlags × List Text) → Type 0 where
  refused :
      (args : List Text) (x : XferFlags) (found : List Text) (e : Err)
      → parse fl args x ≡ err e
      → Rounds parse fl args x found (err e)
  over :
      (args : List Text) (x x' : XferFlags) (found : List Text)
      → parse fl args x ≡ ok (x', [])
      → Rounds parse fl args x found (ok (x', found))
  again :
      (args : List Text) (x x' : XferFlags) (found : List Text) (a : Text) (more : List Text)
      (r : Result (XferFlags × List Text))
      → parse fl args x ≡ ok (x', a ∷ more)
      → Rounds parse fl more x' (found ++ (a ∷ [])) r
      → Rounds parse fl args x found r

module _ (parse : Parse) (l : LeavesSuffix parse) (fl : List Flag) where
  abbrev loop : ℕ → List Text → XferFlags → List Text → Result (XferFlags × List Text)
  loop n = parse_loop parse (suc n) fl

  shorter :
      (args : List Text) (x x' : XferFlags) (a : Text) (more : List Text)
      → parse fl args x ≡ ok (x', a ∷ more)
      → length more < length args
  shorter args x x' a more e =
      let (before, q) = l fl args x x' (a ∷ more) e in
      omega (arith, ap length q, length-append before (a ∷ more))

  loop-Rounds :
      (n : ℕ) (args : List Text) (x : XferFlags) (found : List Text)
      → length args ≤ n
      → (r : Result (XferFlags × List Text)) → parse fl args x ≡ r
      → Rounds parse fl args x found (loop n args x found)
  unfolding parse_loop
  loop-Rounds n args x found h (err f) e = rw e (refused args x found f e)
  loop-Rounds n args x found h (ok (x', [])) e = rw e (over args x x' found e)
  loop-Rounds zero args x found h (ok (x', a ∷ more)) e =
      let s = shorter args x x' a more e in absurd (omega arith)
  loop-Rounds (suc n) args x found h (ok (x', a ∷ more)) e =
      let s = shorter args x x' a more e in
      rw e (
        again args x x' found a more _ e
          (loop-Rounds n more x' (found ++ (a ∷ [])) (omega arith) (parse fl more x') refl))

  -- If the package flag leaves a suffix of the arguments, the loop of parseFlags ends, and what
  -- parseFlags returns is what finitely many rounds lead to, from no flags and nothing found: the error
  -- of the first call of the package flag that fails, or the flags behind the last call with all the
  -- arguments that its calls left first, in their order.
  pub parse_flags_ends :
      (args : List Text) → Rounds parse fl args no_flags [] (parse_flags parse fl args)
  unfolding parse_flags
  parse_flags_ends args = loop-Rounds (length args) args no_flags [] (omega arith) _ refl
