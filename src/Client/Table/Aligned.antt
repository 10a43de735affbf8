-- ===== src/Client/Table/Aligned.antt =====
-- chatterc/cli.go, `tabulate`: the lines of the table, their columns aligned.
use chatter.Base.{ℕ, suc, ◌+◌, ◌≤◌, Bool, List, [], ◌∷◌, ◌++◌, if◌then◌else◌, Str, length, All, ◌≡◌}
use chatter.Base.Result.{Result, ok, err}
use chatter.Client.Layout.{spaces}
use chatter.Client.Table.{TableError, item_error, wrong_columns, rune_count, widths, dashes}
use chatter.Client.Table.Stacked.{stacked, all_lines, tallest}
use chatter.Client.Table.Least.{Roomy}
use chatter.Client.Table.Widths.{Below, Fits}
use chatter.Client.Table.Filled.{Filled}

-- What a line holds for the cells of a row: each with spaces up to the width of its column and three
-- more, counted in runes, so at least three.
pub data Aligned : List ℕ → List Str → Str → Type 0 where
  aligned_nil : {line : Str} → line ≡ [] → Aligned [] [] line
  aligned_cons :
      {w : ℕ} {ws : List ℕ} {cell : Str} {cells : List Str} {rest line : Str} (gap : ℕ)
      → rune_count (length cell) cell + gap ≡ w + 3
      → 3 ≤ gap
      → Aligned ws cells rest
      → line ≡ (cell ++ spaces gap) ++ rest
      → Aligned (w ∷ ws) (cell ∷ cells) line

-- The table has a line for each row.
pub data Printed (ws : List ℕ) : List (List Str) → List Str → Type 0 where
  printed_nil : Printed ws [] []
  printed_cons :
      {row : List Str} {rows : List (List Str)} {line : Str} {table : List Str}
      → Aligned ws row line
      → Printed ws rows table
      → Printed ws (row ∷ rows) (line ∷ table)

module _ {E : Type 0} {T : Type 0} (f : T → Result E (List Str)) (columns : ℕ) where
  -- The rows of the items: for each, the lines of its cells side by side.
  pub data RowsOf : List T → List (List Str) → Type 0 where
    no_items : RowsOf [] []
    more_items :
        {item : T} {items : List T} {row : List Str} {rest : List (List Str)}
        → f item ≡ ok row
        → length row ≡ columns
        → RowsOf items rest
        → RowsOf (item ∷ items) (stacked (tallest 1 (all_lines row)) (all_lines row) ++ rest)

  -- The first item for which the function fails or has not as many columns, and its error.
  pub data Stops : ℕ → List T → TableError E → Type 0 where
    fails_first :
        {i : ℕ} {item : T} {items : List T} {e : E}
        → f item ≡ err e
        → Stops i (item ∷ items) (item_error e)
    wrong_first :
        {i : ℕ} {item : T} {items : List T} {row : List Str}
        → f item ≡ ok row
        → ¬ (length row ≡ columns)
        → Stops i (item ∷ items) (wrong_columns i)
    later :
        {i : ℕ} {item : T} {items : List T} {row : List Str} {e : TableError E}
        → f item ≡ ok row
        → length row ≡ columns
        → Stops (suc i) items e
        → Stops i (item ∷ items) e

-- What tabulate returns: a line for the headers, one of dashes if it is wanted, and a line for each row
-- of the items, in columns that are as narrow as the headers and the lines of the cells allow; or the error
-- of the first item that has one.
pub data Tabulated {E : Type 0} {T : Type 0} (f : T → Result E (List Str)) (items : List T)
    (headers : List Str) (has_separator : Bool) : Result (TableError E) (List Str) → Type 0 where
  prints :
      {table : List Str} (ws : List ℕ) (rows : List (List Str))
      → length ws ≡ length headers
      → ((us : List ℕ) → Below (widths headers) us → Roomy f items us → Below ws us)
      → RowsOf f (length headers) items rows
      → Printed ws (headers ∷ ((if has_separator then dashes ws ∷ [] else []) ++ rows)) table
      → Tabulated f items headers has_separator (ok table)
  stops :
      {e : TableError E}
      → Stops f (length headers) 0 items e
      → Tabulated f items headers has_separator (err e)

module _ {E : Type 0} where
  module _ {T : Type 0} (f : T → Result E (List Str)) (columns : ℕ) where
    -- The rows of all items behind those that are there, or the error of one.
    data Gathered (i : ℕ) (items : List T) (old : List (List Str)) (us : List ℕ)
        : Result (TableError E) (List (List Str) × List ℕ) → Type 0 where
      gathered :
          {ws : List ℕ} {rows : List (List Str)} (new : List (List Str))
          → rows ≡ old ++ new
          → RowsOf f columns items new
          → All (Fits ws) rows
          → Below us ws
          → Gathered i items old us (ok (rows, ws))
      gives_up : {e : TableError E} → Stops f columns i items e → Gathered i items old us (err e)
