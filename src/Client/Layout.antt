-- ===== src/Client/Layout.antt =====
-- chatterc/cli.go, `wrap` and `tabulate`: words in columns, and tables.
pub mod Rows
pub mod Columns
use chatter.Base.{
  ℕ, zero, suc, ◌+◌, ◌-◌, ◌*◌, ◌/◌, ◌%◌, Bool, true, false, List, [], ◌∷◌, ◌++◌, Option, none, some,
  ltb, leb, ◌==◌, if◌then◌else◌, Str, length, get_elem?, replicate,
}
use chatter.Base.Int.{ℤ, pos, negsuc, pos_part, sub_ℕ}
use chatter.Base.Result.{Result, ok, err, ◌>>=◌}
use chatter.Commands.Node.{Failure, panic}

abbrev pub spaces : ℕ → Str
spaces n = replicate n b' '

-- `longestLen` behind the loop over the words.
unfoldable pub longest_len : ℕ → List Str → ℕ
longest_len n [] = n
longest_len n (w ∷ ws) = longest_len (if ltb n (length w) then length w else n) ws

-- `strings.Repeat(" ", longestLen-len(word)+2)`, which panics on a negative count.
unfoldable pub padding : ℕ → Str → Result Failure Str
padding longest w =
    if leb (length w) (longest + 2) then ok (spaces (longest + 2 - length w)) else err panic

-- The loop over `j` for the columns that are left, at the given index of the words.
unfoldable pub cells : ℕ → ℕ → ℕ → List Str → ℕ → Result Failure Str
unfolding padding
cells zero rows longest words index = ok []
cells (suc c) rows longest words index = elim (get_elem? words index) [
  | none ↦ ok []
  | some w ↦ (do
    pad ← if c == 0 then ok [] else padding longest w
    rest ← cells c rows longest words (index + rows)
    ok (w ++ (pad ++ rest)))
]

-- The loop over `i` for the rows that are left.
unfoldable pub lines : ℕ → ℕ → ℕ → ℕ → ℕ → List Str → ℕ → Result Failure (List Str)
unfolding cells
lines zero indent per_row rows longest words i = ok []
lines (suc n) indent per_row rows longest words i = do
  text ← cells per_row rows longest words i
  rest ← lines n indent per_row rows longest words (suc i)
  ok ((spaces indent ++ text) ∷ rest)

-- `len(words) / perRow`, rounded up.
abbrev pub row_count : ℕ → ℕ → ℕ
row_count n per_row = n / per_row + (if n % per_row == 0 then 0 else 1)

-- Go's quotient of an int by a positive number: it is rounded towards 0.
abbrev pub quotient : ℤ → ℕ → ℤ
quotient (pos n) d = pos (n / d)
quotient (negsuc n) d = sub_ℕ 0 (suc n / d)

-- `rows`, also where `perRow` is negative: Go's quotient and, where the division leaves a rest, 1.
abbrev pub rows_of : ℕ → ℤ → ℤ
rows_of n (pos q) = pos (row_count n q)
rows_of n (negsuc q) = sub_ℕ (if n % suc q == 0 then 0 else 1) (n / suc q)

-- `make([]string, rows)`, which panics on a negative length.
abbrev pub make : ℤ → Result Failure ℕ
make (pos n) = ok n
make (negsuc n) = err panic

abbrev pub is_zero : ℤ → Bool
is_zero (pos n) = n == 0
is_zero (negsuc n) = false

-- The loops, with `perRow` columns; the loop over `j` makes no round where `perRow` is negative.
unfoldable pub in_columns : ℕ → ℤ → List Str → Result Failure (List Str)
unfolding lines
in_columns indent per_row words = do
  rows ← make (rows_of (length words) per_row)
  lines rows indent (pos_part per_row) rows (longest_len 0 words) words 0

-- `wrap(f, indent, words)`, where `term.GetSize` gives the width or, as `none`, an error. The width less
-- the indent may be negative.
unfoldable pub wrap : Option ℕ → ℕ → List Str → Result Failure (List Str)
unfolding in_columns longest_len
wrap none indent words = ok words
wrap (some width) indent words =
    let per_row : ℤ = quotient (sub_ℕ width indent) (longest_len 0 words + 2) in
    if is_zero per_row then ok words else in_columns indent per_row words
