-- ===== src/Args/Quoted.antt =====
-- `splitArgs` of util.go on a command line of quoted arguments.
use vextra.Base.{
  ℕ, ◌≡◌, refl, sym, ap, ◌∙◌, inl, inr, true, false, List, [], ◌∷◌, ◌++◌, arith, ◌==◌, ==_iff,
  Bool-cases, All, Text, contains_byte,
}
use vextra.Base.Result.{ok}
use mathlib.Core.List.{append_assoc, append-nil}
use vextra.Args.{lexer, read_rune, scan, end_args, split_args}

-- The arguments in single quotes, each with a blank behind it.
unfoldable pub command_line : List Text → Text
command_line [] = []
command_line (a ∷ args) = (39 ∷ a) ++ (39 ∷ (32 ∷ command_line args))

-- The argument holds no single quote.
abbrev pub IsQuotable : Text → Type 0
IsQuotable a = contains_byte a 39 ≡ false

-- Between single quotes every other character stands for itself.
scan_quoted :
    (c : ℕ) (args : List Text) (cur : Text)
    → (c == 39) ≡ false
    → read_rune c (lexer args cur true 39 false) ≡ lexer args (cur ++ (c ∷ [])) true 39 false
unfolding read_rune
scan_quoted c args cur h = elim (Bool-cases (c == 92)) [
  | inl e ↦ rw (e, h) refl
  | inr e ↦ rw (e, h) refl
]

scan_argument :
    (a line : Text) (args : List Text) (cur : Text)
    → IsQuotable a
    → scan (a ++ (39 ∷ (32 ∷ line))) (lexer args cur true 39 false)
      ≡ scan line (lexer (args ++ ((cur ++ a) ∷ [])) [] false 0 false)
unfolding scan read_rune contains_byte
scan_argument [] line args cur h =
    ap (λ t. scan line (lexer (args ++ (t ∷ [])) [] false 0 false)) (sym (append-nil cur))
scan_argument (c ∷ a) line args cur h =
    ap (scan (a ++ (39 ∷ (32 ∷ line)))) (scan_quoted c args cur (ground (arith, ==_iff c 39)))
    ∙ scan_argument a line args (cur ++ (c ∷ [])) (ground (arith, ==_iff c 39))
    ∙ ap (λ t. scan line (lexer (args ++ (t ∷ [])) [] false 0 false)) (append_assoc cur (c ∷ []) a)

scan_line :
    (args before : List Text)
    → All IsQuotable args
    → scan (command_line args) (lexer before [] false 0 false)
      ≡ lexer (before ++ args) [] false 0 false
unfolding scan command_line read_rune
scan_line [] before h = ap (λ t. lexer t [] false 0 false) (sym (append-nil before))
scan_line (a ∷ args) before h =
    scan_argument a (command_line args) before [] h.0
    ∙ scan_line args (before ++ (a ∷ [])) h.1
    ∙ ap (λ t. lexer t [] false 0 false) (append_assoc before (a ∷ []) args)

-- Arguments without single quotes, each in single quotes and with a blank behind it, are what the line
-- is split into, empty arguments, blanks, backslashes and double quotes included.
pub split_args-command_line :
    (args : List Text) → All IsQuotable args → split_args (command_line args) ≡ ok args
unfolding split_args end_args
split_args-command_line args h = rw (scan_line args [] h) refl
