-- ===== src/Client/Table.antt =====
-- chatterc/cli.go, `tabulate`: a table from rows whose cells may hold several lines.
pub mod Widths
pub mod Stacked
pub mod Filled
pub mod Least
pub mod Aligned
use chatter.Base.{
  ℕ, zero, suc, ◌+◌, ◌-◌, Bool, true, false, List, [], ◌∷◌, ◌++◌, Option, none, some, ltb, ◌==◌,
  if◌then◌else◌, Str, length, get_elem?, set, drop, replicate,
}
use chatter.Base.Utf8.{decode_rune}
use chatter.Base.Result.{Result, ok, err, ◌>>=◌}
use chatter.Client.Layout.{spaces}

-- An error of the function for an item, a row of the wrong length for the item of the given number, or
-- an index out of range.
pub data TableError (E : Type 0) : Type 0 where
  item_error : E → TableError E
  wrong_columns : ℕ → TableError E
  out_of_range : TableError E

-- `max(a, b)`
abbrev pub max_of : ℕ → ℕ → ℕ
max_of a b = if ltb b a then a else b

-- `utf8.RuneCountInString(s)`; each round drops a byte or more.
unfoldable pub rune_count : ℕ → Str → ℕ
unfolding decode_rune
rune_count zero s = 0
rune_count (suc n) [] = 0
rune_count (suc n) (b ∷ s) = suc (rune_count n (drop (decode_rune (b ∷ s)).1 (b ∷ s)))

-- `fmt.Sprintf("%-*s", width, s)`, which counts runes, for a width of a million at most.
unfoldable pub pad_right : ℕ → Str → Str
unfolding rune_count
pad_right width s = s ++ spaces (width - rune_count (length s) s)

-- `strings.Split(cell, "\n")`
abbrev pub add_front : ℕ → List Str → List Str
add_front b [] = (b ∷ []) ∷ []
add_front b (l ∷ ls) = (b ∷ l) ∷ ls

unfoldable pub split_lines : Str → List Str
split_lines [] = [] ∷ []
split_lines (b ∷ s) = if b == 10 then [] ∷ split_lines s else add_front b (split_lines s)

-- `strings.Count(cell, "\n")`
unfoldable pub count_newlines : Str → ℕ
count_newlines [] = 0
count_newlines (b ∷ s) = if b == 10 then suc (count_newlines s) else count_newlines s

-- `nrows` behind the loop over the cells.
unfoldable pub row_height : ℕ → List Str → ℕ
unfolding count_newlines
row_height n [] = n
row_height n (c ∷ cs) = row_height (max_of n (count_newlines c + 1)) cs

module _ {E : Type 0} where
  -- `newRows[k][j] = c`
  unfoldable pub write_at : List (List Str) → ℕ → ℕ → Str → Result (TableError E) (List (List Str))
  write_at rows k j c = elim (get_elem? rows k) [
    | none ↦ err out_of_range
    | some row ↦ if ltb j (length row) then ok (set rows k (set row j c)) else err out_of_range
  ]

  -- `columnWidths[j] = max(columnWidths[j], n)`
  unfoldable pub widen : List ℕ → ℕ → ℕ → Result (TableError E) (List ℕ)
  widen ws j n = elim (get_elem? ws j) [
    | none ↦ err out_of_range
    | some w ↦ ok (set ws j (max_of w n))
  ]

  -- `for k, c := range explodedCells`
  unfoldable pub write_lines :
      ℕ → ℕ → List Str → List (List Str) → List ℕ → Result (TableError E) (List (List Str) × List ℕ)
  unfolding write_at widen
  write_lines j k [] rows ws = ok (rows, ws)
  write_lines j k (c ∷ cs) rows ws = do
    rows' ← write_at rows k j c
    ws' ← widen ws j (length c)
    write_lines j (suc k) cs rows' ws'

  -- `for j, cell := range row`
  unfoldable pub write_cells :
      ℕ → List Str → List (List Str) → List ℕ → Result (TableError E) (List (List Str) × List ℕ)
  unfolding write_lines split_lines
  write_cells j [] rows ws = ok (rows, ws)
  write_cells j (cell ∷ cells) rows ws = do
    r ← write_lines j 0 (split_lines cell) rows ws
    write_cells (suc j) cells r.0 r.1

  -- The new rows of an item.
  unfoldable pub explode : List Str → List ℕ → Result (TableError E) (List (List Str) × List ℕ)
  unfolding write_cells row_height
  explode row ws = write_cells 0 row (replicate (row_height 1 row) (replicate (length row) [])) ws

-- `columnWidths` at first, and the line of dashes.
abbrev pub widths : List Str → List ℕ
widths [] = []
widths (h ∷ hs) = length h ∷ widths hs

abbrev pub dashes : List ℕ → List Str
dashes [] = []
dashes (w ∷ ws) = replicate w b'-' ∷ dashes ws

module _ {E : Type 0} where
  -- One line of the table, the columns three apart.
  unfoldable pub table_line : List ℕ → List Str → Result (TableError E) Str
  unfolding pad_right
  table_line ws [] = ok []
  table_line [] (c ∷ cs) = err out_of_range
  table_line (w ∷ ws) (c ∷ cs) = do rest ← table_line ws cs; ok (pad_right (w + 3) c ++ rest)

  unfoldable pub table_lines : List ℕ → List (List Str) → Result (TableError E) (List Str)
  unfolding table_line
  table_lines ws [] = ok []
  table_lines ws (row ∷ rows) = do
    line ← table_line ws row
    rest ← table_lines ws rows
    ok (line ∷ rest)

abbrev pub from_item : {E : Type 0} → Result E (List Str) → Result (TableError E) (List Str)
from_item (ok row) = ok row
from_item (err e) = err (item_error e)

module _ {E : Type 0} {T : Type 0} (f : T → Result E (List Str)) where
  -- `for i, item := range items`
  unfoldable pub all_rows :
      ℕ → ℕ → List T → List (List Str) → List ℕ → Result (TableError E) (List (List Str) × List ℕ)
  unfolding explode
  all_rows columns i [] rows ws = ok (rows, ws)
  all_rows columns i (item ∷ items) rows ws = do
    row ← from_item (f item)
    r ← if length row == columns then explode row ws else err (wrong_columns i)
    all_rows columns (suc i) items (rows ++ r.0) r.1

  -- `tabulate(items, headers, hasSeparator, f)`
  unfoldable pub tabulate : List T → List Str → Bool → Result (TableError E) (List Str)
  unfolding all_rows table_lines
  tabulate items headers has_separator = do
    r ← all_rows (length headers) 0 items [] (widths headers)
    table_lines r.1 (headers ∷ ((if has_separator then dashes r.1 ∷ [] else []) ++ r.0))
