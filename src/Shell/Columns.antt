-- ===== src/Shell/Columns.antt =====
-- `printColumns` and the lines of `ls -l` of shell.go, with `modeString`.
use vextra.Base.{
  ℕ, zero, suc, ◌+◌, ◌-◌, ◌*◌, ◌/◌, Option, none, some, List, [], ◌∷◌, ◌++◌, str_eq, ltb, replicate,
  if◌then◌else◌, length, get_elem?, Text, codes,
}
use vextra.Entry.{Entry, t_dir, t_link}
use vextra.Util.{human_bytes}
use vextra.Machine.{Machine}

-- The loop over the widths.
unfoldable pub max_width : (Text → ℕ) → List Text → ℕ → ℕ
max_width rune_count [] w = w
max_width rune_count (n ∷ ns) w =
    let l = rune_count n in max_width rune_count ns (if ltb w l then l else w)

abbrev pub column_width : (Text → ℕ) → List Text → ℕ
column_width rune_count names = max_width rune_count names 0 + 2

-- `cols` and `rows`
abbrev pub at_least_one : ℕ → ℕ
at_least_one n = if ltb n 1 then 1 else n

unfoldable pub cols_of : (Text → ℕ) → List Text → ℕ
cols_of rune_count names = at_least_one (80 / column_width rune_count names)

abbrev pub rows_for : List Text → ℕ → ℕ
rows_for names cols = (length names + cols - 1) / cols

-- The loop ends behind the last name.
abbrev pub with_name : Option Text → List Text → List Text
with_name none more = []
with_name (some n) more = n ∷ more

-- The names of a line from a column on, for so many columns.
unfoldable pub line_names : List Text → ℕ → ℕ → ℕ → ℕ → List Text
line_names names rows r c zero = []
line_names names rows r c (suc k) =
    with_name (get_elem? names (c * rows + r)) (line_names names rows r (c + 1) k)

-- A line: each name but the last is filled up to the width.
unfoldable pub line_text : (Text → ℕ) → ℕ → List Text → Text
line_text rune_count width [] = []
line_text rune_count width (n ∷ []) = n
line_text rune_count width (n ∷ m ∷ ns) =
    n ++ (replicate (width - rune_count n) b' ' ++ line_text rune_count width (m ∷ ns))

-- The lines from a row on, so many of them.
unfoldable pub column_lines : (Text → ℕ) → List Text → ℕ → ℕ → ℕ → ℕ → List Text
column_lines rune_count names rows cols r zero = []
column_lines rune_count names rows cols r (suc k) =
    line_text rune_count (column_width rune_count names) (line_names names rows r 0 cols)
    ∷ column_lines rune_count names rows cols (r + 1) k

-- `printColumns`: the lines that are printed
unfoldable pub print_columns : (Text → ℕ) → List Text → List Text
print_columns rune_count [] = []
print_columns rune_count (n ∷ ns) =
    let cols = cols_of rune_count (n ∷ ns) in
    let rows = rows_for (n ∷ ns) cols in column_lines rune_count (n ∷ ns) rows cols 0 rows

-- A name as it is listed.
abbrev pub listed_name : Entry → Text
listed_name e = if str_eq e.type t_dir then e.path ++ codes "/" else e.path

abbrev with_target : Entry → Text
with_target e =
    if str_eq e.type t_dir
    then e.path ++ codes "/"
    else if str_eq e.type t_link
    then e.path ++ (codes " -> " ++ e.link)
    else e.path

-- The verb %10s
abbrev pad_left : (Text → ℕ) → Text → Text
pad_left rune_count t = replicate (10 - rune_count t) b' ' ++ t

abbrev or_nothing : Option Text → Text
or_nothing o = elim o [ none ↦ [] | some t ↦ t ]

module _ {S H F : Type 0} (mc : Machine S H F) where
  -- `modeString`
  unfoldable pub mode_string : Entry → Text
  mode_string e =
      codes (if str_eq e.type t_dir then "d" else if str_eq e.type t_link then "l" else "-")
      ++ mc.perm_string e.mode

  -- A line of `ls -l`. The size is one of an int64, so its unit has a letter.
  unfoldable pub long_line : Entry → Text
  long_line e =
      let size = or_nothing (human_bytes mc.decimal mc.tenths e.size) in
      mode_string e
      ++ (codes " "
          ++ (pad_left mc.rune_count size
              ++ (codes "  " ++ (mc.format_time e.mtime ++ (codes "  " ++ with_target e)))))
