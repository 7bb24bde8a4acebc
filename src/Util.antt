-- ===== src/Util.antt =====
-- util.go: answers to a question, the tilde of a path, and sizes in words. `strings.ToLower`,
-- `os.UserHomeDir` and the verbs of fmt are parameters.
pub mod Scaled
use vextra.Base.{
  ℕ, zero, suc, ◌+◌, ◌*◌, ◌/◌, ◌%◌, ◌^◌, Bool, ◌&&◌, ◌||◌, Option, none, some, List, [], ◌∷◌, ◌++◌,
  any, ltb, ◌==◌, if◌then◌else◌, get_elem?, drop, Text, codes, text_eq, has_prefix,
}
use vextra.Base.Int.{ℤ, pos, ltb_ℤ}
use vextra.Base.Result.{Result, ok, err}
use vextra.Excludes.{trim_space}

-- The words that `isYes` takes for a yes, in UTF-8.
abbrev pub yes_words : List Text
yes_words = codes "s" ∷ codes "si" ∷ (b's' ∷ 195 ∷ 173 ∷ []) ∷ codes "y" ∷ codes "yes" ∷ []

-- `isYes`
unfoldable pub is_yes : (Text → Text) → Text → Bool
is_yes lower line = any (λ w. text_eq (lower (trim_space line)) w) yes_words

-- `p == "~" || strings.HasPrefix(p, "~/")`
abbrev pub has_tilde : Text → Bool
has_tilde p = text_eq p (codes "~") || has_prefix p (codes "~/")

-- `expandTilde`, with what `os.UserHomeDir` gives
unfoldable pub expand_tilde : Result Text → Text → Text
expand_tilde (ok home) p = if has_tilde p then home ++ drop 1 p else p
expand_tilde (err e) p = p

-- The loop of `humanBytes`, on fuel.
unfoldable pub scale_loop : ℕ → ℕ → ℕ → ℕ → ℕ × ℕ
scale_loop zero m div exp = (div, exp)
scale_loop (suc n) m div exp =
    let more = scale_loop n (m / 1024) (div * 1024) (exp + 1) in
    if ltb m 1024 then (div, exp) else more

-- `humanBytes` of a size that is not negative, with the verbs %d and %.1f of a quotient; none, if the
-- index into the letters of the units is out of range.
unfoldable pub human_bytes : (ℕ → Text) → (ℕ → ℕ → Text) → ℕ → Option Text
human_bytes decimal tenths n =
    let (div, exp) = scale_loop 7 (n / 1024) 1024 0 in
    if ltb n 1024 then some (decimal n ++ codes " B") else elim (get_elem? (codes "KMGTPE") exp) [
      | none ↦ none
      | some c ↦ some (tenths n div ++ (b' ' ∷ c ∷ codes "iB"))
    ]

-- The unit and the number of units that `cfgSize` prints of a positive size.
abbrev pub whole_units : ℕ → ℕ × Text
whole_units n =
    if n % 2 ^ 30 == 0
    then (n / 2 ^ 30, codes "GiB")
    else if n % 2 ^ 20 == 0
    then (n / 2 ^ 20, codes "MiB")
    else if n % 2 ^ 10 == 0
    then (n / 2 ^ 10, codes "KiB")
    else (n, codes "B")

-- `cfgSize` with the verb %d
unfoldable pub cfg_size : (ℤ → Text) → ℤ → Text
cfg_size decimal n =
    let n' : ℕ = elim n [ pos k ↦ k | _ ↦ 0 ] in
    let (k, unit) = whole_units n' in
    if ltb_ℤ (pos 0) n then decimal (pos k) ++ unit else decimal n ++ codes "B"
