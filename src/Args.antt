-- ===== src/Args.antt =====
-- `splitArgs` of util.go: a command line is split at blanks, with quotes and backslashes. A text is
-- read byte by byte: the characters that count are single bytes.
pub mod Quoted
use vextra.Base.{
  ℕ, Bool, true, false, not, ◌&&◌, ◌||◌, List, [], ◌∷◌, ◌++◌, ◌==◌, if◌then◌else◌, Text,
}
use vextra.Base.Result.{Err, Result, ok, err}

-- The variables of the loop; `quote` is 0 outside of quotes.
pub record Lexer : Type 0 where
  pub args : List Text
  pub cur : Text
  pub in_tok : Bool
  pub quote : ℕ
  pub esc : Bool

abbrev pub lexer : List Text → Text → Bool → ℕ → Bool → Lexer
lexer args cur in_tok quote esc = record {
  args = args;
  cur = cur;
  in_tok = in_tok;
  quote = quote;
  esc = esc;
}

-- One round of the loop: 92 is the backslash, 39 and 34 are the quotes, 32 and 9 the blanks.
unfoldable pub read_rune : ℕ → Lexer → Lexer
read_rune r s =
    if s.esc
    then record s { cur = s.cur ++ (r ∷ []); esc = false; in_tok = true }
    else if r == 92 && not (s.quote == 39)
    then record s { esc = true; in_tok = true }
    else if not (s.quote == 0)
    then (if r == s.quote then record s { quote = 0 } else record s { cur = s.cur ++ (r ∷ []) })
    else if r == 34 || r == 39
    then record s { quote = r; in_tok = true }
    else if r == 32 || r == 9
    then (if s.in_tok
        then record s { args = s.args ++ (s.cur ∷ []); cur = []; in_tok = false }
        else s)
    else record s { cur = s.cur ++ (r ∷ []); in_tok = true }

unfoldable pub scan : Text → Lexer → Lexer
scan [] s = s
scan (r ∷ line) s = scan line (read_rune r s)

-- What follows the loop.
unfoldable pub end_args : Lexer → Result (List Text)
end_args s =
    if not (s.quote == 0)
    then err Err.other
    else let cur = if s.esc then s.cur ++ (92 ∷ []) else s.cur in
      ok (if s.in_tok then s.args ++ (cur ∷ []) else s.args)

unfoldable pub split_args : Text → Result (List Text)
split_args line = end_args (scan line (lexer [] [] false 0 false))
