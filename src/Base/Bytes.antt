-- ===== src/Base/Bytes.antt =====
-- Text as the bytes of a Go string, its equality, and prefix and suffix tests of package strings.
use Prim.Native.Nat.{ℕ, ◌-◌}
use Prim.Native.Char.{code}
use Prim.Native.String.{String}
use mathlib.Core.Path.{◌≡◌, refl}
use mathlib.Core.Logic.{◌↔◌}
use mathlib.Core.Bool.{Bool, true, false, ◌&&◌, ◌||◌}
use mathlib.Core.List.{List, [], ◌∷◌, ◌++◌}
use native.Mathlib.Omega.{arith}
use vextra.Base.Logic.{◌==◌, if◌then◌else◌}
use vextra.Base.Lists.{length, take}

abbrev pub Text : Type 0
Text = List ℕ

-- The bytes of an ASCII literal.
abbrev pub codes : String → Text
codes String.[] = []
codes (String.◌∷◌ c s) = code c ∷ codes s

unfoldable pub text_eq : Text → Text → Bool
text_eq [] [] = true
text_eq (a ∷ s) (b ∷ t) = (a == b) && text_eq s t
text_eq _ _ = false

pub text_eq_refl : (s : Text) → text_eq s s ≡ true
unfolding text_eq
text_eq_refl [] = refl
text_eq_refl (a ∷ s) = ground (arith, text_eq_refl s)

pub eq_of_text_eq : (s t : Text) → text_eq s t ≡ true → s ≡ t
unfolding text_eq
eq_of_text_eq [] [] h = refl
eq_of_text_eq [] (b ∷ t) h = cc
eq_of_text_eq (a ∷ s) [] h = cc
eq_of_text_eq (a ∷ s) (b ∷ t) h = ground (arith, eq_of_text_eq s t)

pub text_eq_iff : (s t : Text) → (text_eq s t ≡ true) ↔ (s ≡ t)
text_eq_iff s t = (eq_of_text_eq s t, λ e. rw e (text_eq_refl t))

-- strings.HasPrefix(s, p)
unfoldable pub has_prefix : Text → Text → Bool
has_prefix s [] = true
has_prefix [] (b ∷ p) = false
has_prefix (a ∷ s) (b ∷ p) = (a == b) && has_prefix s p

pub has_prefix_append : (p s : Text) → has_prefix (p ++ s) p ≡ true
unfolding has_prefix
has_prefix_append [] s = has_prefix_nil s
  where
    has_prefix_nil : (s : Text) → has_prefix s [] ≡ true
    has_prefix_nil [] = refl
    has_prefix_nil (a ∷ s) = refl
has_prefix_append (a ∷ p) s = ground (arith, has_prefix_append p s)

-- A text with a prefix is that prefix and a rest.
pub has_prefix_split : (s p : Text) → has_prefix s p ≡ true → (r : Text) × (s ≡ p ++ r)
unfolding has_prefix
has_prefix_split s [] h = (s, refl)
has_prefix_split [] (b ∷ p) h = cc
has_prefix_split (a ∷ s) (b ∷ p) h =
    let (r, e) = has_prefix_split s p (ground arith) in (r, ground arith)

-- strings.ContainsRune(s, c), for a byte.
unfoldable pub contains_byte : Text → ℕ → Bool
contains_byte [] c = false
contains_byte (a ∷ s) c = if a == c then true else contains_byte s c

-- strings.Contains(s, p)
unfoldable pub contains : Text → Text → Bool
unfolding has_prefix
contains [] p = has_prefix [] p
contains (a ∷ s) p = has_prefix (a ∷ s) p || contains s p

-- strings.TrimPrefix(s, p) and strings.TrimSuffix(s, p), for one byte.
unfoldable pub trim_prefix : Text → ℕ → Text
trim_prefix [] c = []
trim_prefix (a ∷ s) c = if a == c then s else a ∷ s

unfoldable pub has_suffix : Text → ℕ → Bool
has_suffix [] c = false
has_suffix (a ∷ []) c = a == c
has_suffix (a ∷ b ∷ s) c = has_suffix (b ∷ s) c

unfoldable pub trim_suffix : Text → ℕ → Text
unfolding has_suffix
trim_suffix s c = if has_suffix s c then take (length s - 1) s else s
