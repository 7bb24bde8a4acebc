-- ===== src/Shell/Grid.antt =====
-- The columns of `printColumns`: where each name stands.
use vextra.Base.{
  ℕ, zero, suc, ◌+◌, ◌-◌, ◌*◌, ◌/◌, ◌%◌, ◌≤◌, ◌<◌, ◌≡◌, refl, sym, ◌∙◌, Option, none, some, List,
  [], ◌∷◌, ◌++◌, replicate, arith, ltb, lt→ltb, if◌then◌else◌, none≢some, length, get_elem?,
  get_elem?_ge, get_elem?_lt, Text,
}
use native.Mathlib.Nat.{add-mul, mul_comm, div-lt_iff_lt-mul, div-add-mod', lt-div-mul-add, mod-lt}
use native.Mathlib.Decide.{dec_lt}
use vextra.Shell.Columns.{
  column_width, cols_of, rows_for, with_name, line_names, line_text, column_lines, print_columns,
}

-- Behind the end of a list there is nothing.
none_after :
    (names : List Text) (i j : ℕ) → get_elem? names i ≡ none → i ≤ j → get_elem? names j ≡ none
none_after names i j e l = elim (dec_lt i (length names)) [
  | yes h ↦ let (a, f) = get_elem?_lt names i h in absurd (none≢some (sym e ∙ f))
  | no h ↦ get_elem?_ge names j (omega arith)
]

get-line_names :
    (names : List Text) (rows r c k j : ℕ)
    → get_elem? (line_names names rows r c k) j
      ≡ (if ltb j k then get_elem? names ((c + j) * rows + r) else none)
unfolding line_names
get-line_names names rows r c zero j = ground arith
get-line_names names rows r c (suc k) j =
    step j (get_elem? names (c * rows + r)) refl (get-line_names names rows r (c + 1) k)
  where
    step :
        (j : ℕ) (o : Option Text)
        → get_elem? names (c * rows + r) ≡ o
        → ((j : ℕ)
            → get_elem? (line_names names rows r (c + 1) k) j
              ≡ (if ltb j k then get_elem? names ((c + 1 + j) * rows + r) else none))
        → get_elem? (with_name o (line_names names rows r (c + 1) k)) j
          ≡ (if ltb j (suc k) then get_elem? names ((c + j) * rows + r) else none)
    step zero (some n) e ih = let z : c + zero ≡ c = omega arith in rw (z, e) (ground arith)
    step (suc j) (some n) e ih =
        let z : c + 1 + j ≡ c + suc j = omega arith in ih j ∙ rw z (ground arith)
    step j none e ih =
        let d = add-mul c j rows in
        let f = none_after names (c * rows + r) ((c + j) * rows + r) e (omega (arith, d)) in
        rw f (ground arith)

get-column_lines :
    (rune_count : Text → ℕ) (names : List Text) (rows cols r k j : ℕ)
    → get_elem? (column_lines rune_count names rows cols r k) j ≡ (
        if ltb j k
        then some (
            line_text rune_count
              (column_width rune_count names)
              (line_names names rows (r + j) 0 cols))
        else none)
unfolding column_lines
get-column_lines rune_count names rows cols r zero j = ground arith
get-column_lines rune_count names rows cols r (suc k) zero =
    let e : r + zero ≡ r = omega arith in rw e (ground arith)
get-column_lines rune_count names rows cols r (suc k) (suc j) =
    let e : r + 1 + j ≡ r + suc j = omega arith in
    get-column_lines rune_count names rows cols (r + 1) k j ∙ rw e (ground arith)

cols_of-positive : (rune_count : Text → ℕ) (names : List Text) → 0 < cols_of rune_count names
unfolding cols_of
cols_of-positive rune_count names = ground arith

-- There is room for all names.
rows-enough : (n cols : ℕ) → 0 < cols → n ≤ (n + cols - 1) / cols * cols
rows-enough n cols h =
    let a = n + cols - 1 in
    let l : a < a / cols * cols + cols = lt-div-mul-add h in omega (arith, l)

get-line :
    (names : List Text) (rows cols r c : ℕ)
    → get_elem? (line_names names rows r 0 cols) c
      ≡ (if ltb c cols then get_elem? names (c * rows + r) else none)
get-line names rows cols r c =
    let z : 0 + c ≡ c = omega arith in get-line_names names rows r 0 cols c ∙ rw z refl

-- Each index has a place, if there is room.
placed_lem :
    (rows cols i : ℕ)
    → i < rows * cols
    → (i % rows < rows) × (i / rows < cols) × (i / rows * rows + i % rows ≡ i)
placed_lem zero cols i room = absurd (omega arith)
placed_lem (suc k) cols i room =
    let rows = suc k in
    (
      mod-lt i (omega arith),
      (div-lt_iff_lt-mul (omega arith)).1 (omega (arith, mul_comm cols rows)),
      div-add-mod' i rows,
    )

-- A line of names: each but the last is filled up with spaces to the width, and the last is as it is.
pub data Row (rune_count : Text → ℕ) (width : ℕ) : List Text → Text → Type 0 where
  empty : Row rune_count width [] []
  last : (n : Text) → Row rune_count width (n ∷ []) n
  filled :
      (n m : Text) (ns : List Text) (line : Text)
      → Row rune_count width (m ∷ ns) line
      → Row rune_count width (n ∷ m ∷ ns) (n ++ (replicate (width - rune_count n) b' ' ++ line))

line_text-Row :
    (rune_count : Text → ℕ) (width : ℕ) (ns : List Text)
    → Row rune_count width ns (line_text rune_count width ns)
unfolding line_text
line_text-Row rune_count width [] = empty
line_text-Row rune_count width (n ∷ []) = last n
line_text-Row rune_count width (n ∷ m ∷ ns) =
    filled n m ns _ (line_text-Row rune_count width (m ∷ ns))

-- A printed line is that of the names at this row.
pub record IsLine (rune_count : Text → ℕ) (names : List Text) (cols rows r : ℕ) (line : Text)
    : Type 0 where
  pub row : List Text
  pub is_row : Row rune_count (column_width rune_count names) row line
  pub shows :
      (c : ℕ) → get_elem? row c ≡ (if ltb c cols then get_elem? names (c * rows + r) else none)

-- The lines of `printColumns` for names in so many rows and columns.
pub record Grid (rune_count : Text → ℕ) (names : List Text) (cols rows : ℕ) : Type 0 where
  pub lines :
      (r : ℕ)
      → r < rows
      → (line : Text) × (get_elem? (print_columns rune_count names) r ≡ some line)
        × IsLine rune_count names cols rows r line
  pub end : (r : ℕ) → rows ≤ r → get_elem? (print_columns rune_count names) r ≡ none
  -- a place for each name, going down the columns
  pub placed :
      (i : ℕ)
      → i < length names
      → (i % rows < rows) × (i / rows < cols) × (i / rows * rows + i % rows ≡ i)

-- `printColumns` prints nothing of no names. Of names it prints as many lines as there are rows. The line
-- at r shows, from the first column on, the names at r, rows + r, 2 * rows + r and so on, as many as
-- there are columns at most; each but the last is filled with spaces to the width. The name at
-- index i stands in the row i mod rows at the column i / rows, which exist.
pub print_columns-Grid :
    (rune_count : Text → ℕ) (n : Text) (ns : List Text)
    → let names = n ∷ ns in
      (print_columns rune_count [] ≡ [])
      × Grid rune_count names (cols_of rune_count names) (rows_for names (cols_of rune_count names))
unfolding print_columns
print_columns-Grid rune_count n ns =
    let names = n ∷ ns in
    let cols = cols_of rune_count names in
    let rows = rows_for names cols in
    let room = rows-enough (length names) cols (cols_of-positive rune_count names) in
    let at = get-column_lines rune_count names rows cols 0 rows in
    let width = column_width rune_count names in
    (
      refl,
      record {
        lines = λ r h.
            let row = line_names names rows (0 + r) 0 cols in
            let z : 0 + r ≡ r = omega arith in
            (
              line_text rune_count width row,
              at r ∙ rw (lt→ltb r rows h) refl,
              record {
                row = row;
                is_row = line_text-Row rune_count width row;
                shows = λ c. get-line names rows cols (0 + r) c ∙ rw z refl;
              },
            );
        end = λ r h. at r ∙ ground arith;
        placed = λ i l. placed_lem rows cols i (omega (arith, room));
      },
    )
