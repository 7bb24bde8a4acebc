-- ===== src/Tests/Shells.antt =====
-- The interactive session and the budget of bytes, at concrete data.
use vextra.Base.{
  ℕ, ◌+◌, ◌≡◌, refl, sym, ap, ◌∙◌, ◌≢◌, inl, inr, true, false, some, List, [], ◌∷◌, if◌then◌else◌,
  length, Text, codes, text_eq, text_eq_refl, contains_byte,
}
use vextra.Base.Int.{pos}
use vextra.Base.Result.{Result, ok}
use vextra.Base.Keeps.{Keeps-pure}
use vextra.Path.Rooted.{Cleaned}
use vextra.Path.{join, bad_part}
use vextra.Fs.{Fs}
use vextra.Config.{default_config}
use vextra.Util.{is_yes}
use vextra.Excludes.{trim_space}
use vextra.Shell.{Shell, Scope, rm, read_string}
use vextra.Shell.Columns.{
  cols_of, rows_for, print_columns, column_lines, line_names, line_text, max_width,
}
use vextra.Shell.Grid.{Grid, print_columns-Grid}
use vextra.Shell.Removed.{force_flags, Given, NoYes, ended, next_line, rm-Unasked}
use vextra.Shell.Commands.{run_shell}
use vextra.Shell.Ended.{run_shell_ends}
use vextra.Budget.{Budget, SemReach, begun, stepped, acquired, must_wait, acquire, new_byte_sem}
use vextra.Budget.Kept.{sum, SemReach-budget}
use vextra.Tests.Plans.{shelf}
use vextra.Tests.Commands.{machine}

abbrev names : List Text
names = codes "bb" ∷ codes "c" ∷ []

-- Two columns of four in a line.
columns : print_columns length (codes "a" ∷ names) ≡ codes "a   bb  c" ∷ []
unfolding print_columns column_lines line_names line_text max_width cols_of
columns = refl

print_columns-Grid_example :
    (print_columns length [] ≡ [])
    × Grid length
        (codes "a" ∷ names)
        (cols_of length (codes "a" ∷ names))
        (rows_for (codes "a" ∷ names) (cols_of length (codes "a" ∷ names)))
print_columns-Grid_example = print_columns-Grid length (codes "a") names

-- The other side, with a home.
abbrev homely : Fs ℕ ℕ
homely = record (shelf []) { home = codes "/home/me" }

home-Cleaned : Cleaned homely.home
unfolding bad_part join text_eq contains_byte
home-Cleaned = record {
  names = codes "home" ∷ codes "me" ∷ [];
  joined = refl;
  named = ((refl, refl), ((refl, refl), tt));
}

run_shell_ends_example :
    (r : Result (Unit {0})) × (s : Shell ℕ) × (run_shell machine default_config homely
        (codes "cd /a/../b")
        0
      ≡ some (r, s))
    × Cleaned s.rcwd
run_shell_ends_example =
    run_shell_ends machine default_config homely home-Cleaned (codes "cd /a/../b") 0

-- It counts the recursive removals.
abbrev counting : Fs ℕ ℕ
counting = record homely { remove = λ p recursive n. (ok tt, if recursive then n + 1 else n) }

abbrev scope : Scope ℕ ℕ
scope = record { fs = counting; resolve = λ p. p }

abbrev Spared : ℕ → Type 0
Spared n = n ≡ 0

abbrev unasked : Shell ℕ
unasked = record { world = 0; rcwd = codes "/"; input = codes "no"; shown = [] }

differ : (w a b : Text) → text_eq a b ≡ false → w ≡ a → ¬ (w ≡ b)
differ w a b e p q =
    let x : text_eq a b ≡ true = ap (text_eq a) (sym q ∙ p) ∙ text_eq_refl a in cc (x, e)

not_forced : ¬ Given force_flags (codes "-r" ∷ codes "d" ∷ [])
unfolding text_eq
not_forced (w, inl p, inl q) = differ w (codes "-rf") (codes "-r") refl p q
not_forced (w, inl p, inr (inl q)) = differ w (codes "-rf") (codes "d") refl p q
not_forced (w, inl p, inr (inr z)) = absurd z
not_forced (w, inr (inl p), inl q) = differ w (codes "-fr") (codes "-r") refl p q
not_forced (w, inr (inl p), inr (inl q)) = differ w (codes "-fr") (codes "d") refl p q
not_forced (w, inr (inl p), inr (inr z)) = absurd z
not_forced (w, inr (inr (inl p)), inl q) = differ w (codes "-f") (codes "-r") refl p q
not_forced (w, inr (inr (inl p)), inr (inl q)) = differ w (codes "-f") (codes "d") refl p q
not_forced (w, inr (inr (inl p)), inr (inr z)) = absurd z
not_forced (w, inr (inr (inr z)), m) = absurd z

no_yes : NoYes machine.to_lower (codes "no")
unfolding is_yes read_string trim_space text_eq
no_yes = next_line (codes "no") refl (ended refl)

rm-Unasked_example : Spared (rm machine homely scope (codes "-r" ∷ codes "d" ∷ []) unasked).1.world
rm-Unasked_example =
    rm-Unasked machine homely Spared scope (codes "-r" ∷ codes "d" ∷ []) unasked (λ p. Keeps-pure _)
      (λ p. Keeps-pure tt) (λ g. (not_forced, no_yes)) refl

abbrev budget : Budget
budget = record { sem = record { avail = 0; cap = 4 }; held = 4 ∷ [] }

-- A block of 9 bytes takes the whole budget of 4.
taken : SemReach (pos 4) budget
unfolding acquire new_byte_sem
taken = stepped begun (acquired 9 (record { avail = 4; cap = 4 }) [] refl)

SemReach-budget_example :
    (sum budget.held + budget.sem.avail ≡ 4)
    × ((n : ℕ) → must_wait n budget.sem ≡ true → budget.held ≢ [])
SemReach-budget_example = SemReach-budget (pos 4) budget taken
