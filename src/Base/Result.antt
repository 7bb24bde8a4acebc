-- ===== src/Base/Result.antt =====
-- Go's errors, as far as the program tells them apart, and computations that may fail over a state.
-- The sentinel errors of fs.go and `fs.ErrNotExist` are among the constructors that `errors.Is` looks for.
use Prim.Native.String.{String}
use mathlib.Core.Path.{◌≡◌, refl}

pub data Err : Type 0 where
  not_exist verify outside_root safety partial_failure conn usage : Err
  -- `io.EOF` and `io.ErrUnexpectedEOF`
  eof unexpected_eof : Err
  -- `errDiffs` of main.go and `flag.ErrHelp`
  diffs help : Err
  -- an error of the code or of a library that nobody tells from others
  other : Err
  -- `RemoteError`: the code and the text that the agent sent
  remote : String → String → Err

pub data Result {ℓ} (A : Type ℓ) : Type ℓ where
  ok : A → Result A
  err : Err → Result A

abbrev pub bind {ℓ κ} : {A : Type ℓ} {B : Type κ} → Result A → (A → Result B) → Result B
bind (ok a) f = f a
bind (err e) f = err e

-- A computation over a state `S` that returns a value or an error; both keep the state reached.
abbrev pub M : Type 0 → Type 0 → Type 0
M S A = S → Result A × S

infixl 5 ◌>>=◌ ◌>>◌
abbrev pub ◌>>=◌ : {S A B : Type 0} → M S A → (A → M S B) → M S B
◌>>=◌ m f s = let (r, s') = m s in elim r [ ok a ↦ f a s' | err e ↦ (err e, s') ]

abbrev pub ◌>>◌ : {S B : Type 0} → M S (Unit {0}) → M S B → M S B
m >> k = m >>= λ _. k

abbrev pub pure : {S A : Type 0} → A → M S A
pure a s = (ok a, s)

abbrev pub raise : {S A : Type 0} → Err → M S A
raise e s = (err e, s)

-- The call's error as a value.
abbrev pub attempt : {S A : Type 0} → M S A → M S (Result A)
attempt m s = let (r, s') = m s in (ok r, s')

-- A sequence that succeeds, taken apart: the value and the state between the two steps.
pub record Steps {S A B : Type 0} (m : M S A) (f : A → M S B) (s : S) (b : B) (s' : S)
    : Type 0 where
  pub value : A
  pub state : S
  pub first : m s ≡ (ok value, state)
  pub second : f value state ≡ (ok b, s')

pub >>=-ok :
    {S A B : Type 0} (m : M S A) (f : A → M S B) (s : S) (b : B) (s' : S)
    → (m >>= f) s ≡ (ok b, s')
    → Steps m f s b s'
>>=-ok {S} {A} {B} m f s b s' h = go (m s) refl h
  where
    go : (x : Result A × S) → m s ≡ x → ◌>>=◌ (λ _. x) f s ≡ (ok b, s') → Steps m f s b s'
    go (ok a, t) e q = record { value = a; state = t; first = e; second = q }
    go (err x, t) e q = cc q
