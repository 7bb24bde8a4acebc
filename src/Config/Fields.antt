-- ===== src/Config/Fields.antt =====
-- The texts of a configuration file: lines, quotes, comments, and the parts of a size.
use vextra.Base.{
  ℕ, ◌-◌, ◌^◌, Bool, false, ◌&&◌, ◌||◌, Option, none, some, List, [], ◌∷◌, map, leb, ◌==◌,
  if◌then◌else◌, length, take, Text, codes, has_prefix,
}
use mathlib.Core.List.{reverse}
use vextra.Excludes.{trim_space}
use vextra.Transport.{cut}

-- `strings.Split` at a byte
unfoldable pub split_at : ℕ → Text → List Text
split_at c [] = [] ∷ []
split_at c (a ∷ s) = elim (split_at c s) [
  | [] ↦ []
  | p ∷ ps ↦ if a == c then [] ∷ p ∷ ps else (a ∷ p) ∷ ps
]

abbrev pub quote_or_tick : ℕ → Bool
quote_or_tick c = c == b'"' || c == 39

abbrev pub drop_quotes : Text → Text
drop_quotes [] = []
drop_quotes (c ∷ s) = let rest = drop_quotes s in if quote_or_tick c then rest else c ∷ s

-- `strings.Trim` with both kinds of quotes
abbrev pub unquote : Text → Text
unquote s = reverse (drop_quotes (reverse (drop_quotes s)))

abbrev pub to_upper : ℕ → ℕ
to_upper c = if leb b'a' c && leb c b'z' then c - 32 else c

-- `strings.TrimSuffix`
abbrev pub without_suffix : Text → Text → Text
without_suffix s p = if has_prefix (reverse s) (reverse p) then take (length s - length p) s else s

-- The unit that a last byte stands for.
abbrev pub unit : ℕ → Option ℕ
unit c =
    if c == b'K'
    then some (2 ^ 10)
    else if c == b'M'
    then some (2 ^ 20)
    else if c == b'G'
    then some (2 ^ 30)
    else if c == b'T'
    then some (2 ^ 40)
    else none

abbrev pub with_unit : Text → Option ℕ → Text × ℕ
with_unit t none = (t, 1)
with_unit t (some mult) = (take (length t - 1) t, mult)

abbrev pub last_unit : Text → Option ℕ
last_unit [] = none
last_unit (c ∷ s) = unit c

-- The text of the number in a size, and the factor of its unit.
unfoldable pub size_parts : Text → Text × ℕ
size_parts s =
    let t =
      without_suffix (without_suffix (trim_space (map to_upper s)) (codes "IB")) (codes "B") in
    with_unit t (last_unit (reverse t))

abbrev pub no_comment : Text → Text
no_comment line = elim (cut line b'#') [ none ↦ line | some (before, after) ↦ before ]

abbrev pub is_indented : Text → Bool
is_indented [] = false
is_indented (c ∷ s) = c == b' ' || c == 9
