-- ===== src/Client/Table/Filled.antt =====
-- chatterc/cli.go, `tabulate`: the rows of an item, with no index out of range, and what they hold.
use chatter.Base.{
  ℕ, suc, ◌+◌, ◌≤◌, ◌<◌, true, List, [], ◌∷◌, ltb, Str, length, get_elem?, set, replicate,
  Option-cases, inl, inr, ◌∙◌, length-set, length-replicate, All, all_cons, All-set, All-get_elem?,
  ◌≡◌, refl, sym, ap, subst, arith,
}
use chatter.Base.Result.{Result, ok, ◌>>=◌}
use chatter.Client.Table.{
  TableError, max_of, split_lines, count_newlines, row_height, write_at, widen, write_lines,
  write_cells, explode,
}
use chatter.Client.Table.Stacked.{
  stacked, all_lines, put_cell, put_lines, put_cells, put_cells-stacked, tallest,
  row_height-tallest,
}
use chatter.Client.Table.Widths.{
  Below, Fits, Below-refl, Below-trans, Below-length, Fits-length, All-Below, Below-set, Fits-set,
  get_elem?-some, length-split_lines, row_height-le, empty-Fits, All-replicate,
}

length-put_cell :
    (rows : List (List Str)) (k j : ℕ) (c : Str) → length (put_cell rows k j c) ≡ length rows
length-put_cell rows k j c = elim (Option-cases (get_elem? rows k)) [
  | inl e ↦ rw (e, put_cell) refl
  | inr (row, e) ↦ rw (e, put_cell) (length-set rows k (set row j c))
]

length-put_lines :
    (j k : ℕ) (cs : List Str) (rows : List (List Str))
    → length (put_lines j k cs rows) ≡ length rows
length-put_lines j k [] rows = refl
length-put_lines j k (c ∷ cs) rows =
    length-put_lines j (suc k) cs (put_cell rows k j c) ∙ length-put_cell rows k j c

module _ {E : Type 0} where
  -- Rows that were filled: the given ones, each fitting the widths, which only grew.
  pub data Filled (want : List (List Str)) (ws : List ℕ)
      : Result (TableError E) (List (List Str) × List ℕ) → Type 0 where
    filled :
        {rows : List (List Str)} {vs : List ℕ}
        → All (Fits vs) rows
        → rows ≡ want
        → Below ws vs
        → Filled want ws (ok (rows, vs))

  -- One cell of one row is written, and its column widened.
  write_one :
      (j k : ℕ) (c : Str) (rows : List (List Str)) (ws : List ℕ)
      → All (Fits ws) rows
      → j < length ws
      → k < length rows
      → (rows' : List (List Str)) × (ws' : List ℕ) × (write_at {E = E} rows k j c ≡ ok rows')
        × (widen {E = E} ws j (length c) ≡ ok ws')
        × All (Fits ws') rows'
        × (rows' ≡ put_cell rows k j c)
        × (length rows' ≡ length rows)
        × Below ws ws'
  unfolding write_at widen
  write_one j k c rows ws f lj lk =
      let (row, e, g) = All-get_elem? k f lk in
      let (w, d) = get_elem?-some ws j lj in
      let ws' = set ws j (max_of w (length c)) in
      let b = Below-set ws j (length c) d in
      let inside : ltb j (length row) ≡ true = ground (arith, Fits-length g, lj) in
      (
        set rows k (set row j c),
        ws',
        rw (e, inside, write_at) refl,
        rw (d, widen) refl,
        All-set k (All-Below b f) (Fits-set j c g d),
        rw (e, put_cell) refl,
        length-set rows k (set row j c),
        b,
      )

  Filled-Below :
      {want : List (List Str)} {us vs : List ℕ}
      {r : Result (TableError E) (List (List Str) × List ℕ)}
      → Below us vs
      → Filled want vs r
      → Filled want us r
  Filled-Below b (filled f l a) = filled f l (Below-trans b a)

  write_lines-Filled :
      (j k : ℕ) (cs : List Str) (rows : List (List Str)) (ws : List ℕ)
      → All (Fits ws) rows
      → j < length ws
      → k + length cs ≤ length rows
      → Filled (put_lines j k cs rows) ws (write_lines j k cs rows ws)
  unfolding write_lines
  write_lines-Filled j k [] rows ws f lj lk = filled f refl (Below-refl ws)
  write_lines-Filled j k (c ∷ cs) rows ws f lj lk =
      let (rows', ws', a, b, g, same, l, below) =
        write_one j k c rows ws f lj (omega (arith, lk)) in
      let rest =
        write_lines-Filled j (suc k) cs rows' ws' g (omega (arith, Below-length below, lj))
          (omega (arith, lk, l)) in
      rw (a, b, write_lines)
        (Filled-Below below (
          subst (λ m. Filled (put_lines j (suc k) cs m) ws' (write_lines j (suc k) cs rows' ws'))
            same rest))

  -- The cells behind a cell that was written.
  pub Filled-then :
      {want want' : List (List Str)} {ws : List ℕ}
      {r : Result (TableError E) (List (List Str) × List ℕ)}
      (next : List (List Str) × List ℕ → Result (TableError E) (List (List Str) × List ℕ))
      → Filled want ws r
      → ((vs : List ℕ) → All (Fits vs) want → Below ws vs → Filled want' vs (next (want, vs)))
      → Filled want' ws (r >>= next)
  Filled-then {want} {want'} next (filled {rows} {vs} f e b) h =
      Filled-Below b
        (subst (λ m. Filled want' vs (next (m, vs))) (sym e) (h vs (subst (All (Fits vs)) e f) b))

  write_cells-Filled :
      (j : ℕ) (cells : List Str) (rows : List (List Str)) (ws : List ℕ)
      → All (Fits ws) rows
      → j + length cells ≤ length ws
      → All (λ (c : Str). count_newlines c + 1 ≤ length rows) cells
      → Filled (put_cells j cells rows) ws (write_cells j cells rows ws)
  unfolding write_cells
  write_cells-Filled j [] rows ws f l h = filled f refl (Below-refl ws)
  write_cells-Filled j (cell ∷ cells) rows ws f l (all_cons h hs) =
      let rows' = put_lines j 0 (split_lines cell) rows in
      Filled-then (λ (r : List (List Str) × List ℕ). write_cells (suc j) cells r.0 r.1)
        (write_lines-Filled j 0 (split_lines cell) rows ws f (omega (arith, l))
          (omega (arith, length-split_lines cell, h)))
        (λ ws' g b.
          write_cells-Filled (suc j) cells rows' ws' g (omega (arith, Below-length b, l)) (
            subst (λ (n : ℕ). All (λ (c : Str). count_newlines c + 1 ≤ n) cells)
              (sym (length-put_lines j 0 (split_lines cell) rows)) hs))

  -- The rows of an item hold the lines of its cells side by side.
  pub explode-Filled :
      (row : List Str) (ws : List ℕ)
      → length row ≡ length ws
      → Filled (stacked (tallest 1 (all_lines row)) (all_lines row)) ws (explode row ws)
  unfolding explode
  explode-Filled row ws e =
      let n = row_height 1 row in
      let blank = replicate n (replicate (length row) []) in
      let f : All (Fits ws) blank =
        rw e (All-replicate n ws (replicate (length ws) []) (empty-Fits ws)) in
      let k : length blank ≡ n = length-replicate n (replicate (length row) []) in
      subst (λ m. Filled m ws (write_cells 0 row blank ws))
        (put_cells-stacked n row
          ∙ ap (λ (m : ℕ). stacked m (all_lines row)) (row_height-tallest 1 row))
        (write_cells-Filled 0 row blank ws f (omega (arith, e)) (
          subst (λ (m : ℕ). All (λ (c : Str). count_newlines c + 1 ≤ m) row) (sym k)
            (row_height-le 1 row).1))
