-- ===== src/Client/Table/Stacked.antt =====
-- chatterc/cli.go, `tabulate`: what the rows of an item hold.
use chatter.Base.{
  ℕ, zero, suc, ◌+◌, ◌≤◌, List, [], ◌∷◌, ◌++◌, none, some, Str, length, length-append, get_elem?,
  set, replicate, ◌≡◌, refl, sym, ap, subst, ◌∙◌, append_assoc, append-nil, arith,
}
use chatter.Client.Table.{max_of, split_lines, count_newlines, row_height}
use chatter.Client.Table.Widths.{length-split_lines}

-- The next line of each cell, which is empty where a cell has no more lines; and what is left.
abbrev pub head_of : List Str → Str
head_of [] = []
head_of (l ∷ ls) = l

abbrev pub tail_of : List Str → List Str
tail_of [] = []
tail_of (l ∷ ls) = ls

abbrev pub heads : List (List Str) → List Str
heads [] = []
heads (ls ∷ lss) = head_of ls ∷ heads lss

abbrev pub tails : List (List Str) → List (List Str)
tails [] = []
tails (ls ∷ lss) = tail_of ls ∷ tails lss

-- The lines of all cells side by side.
abbrev pub stacked : ℕ → List (List Str) → List (List Str)
stacked zero lss = []
stacked (suc n) lss = heads lss ∷ stacked n (tails lss)

-- The number of lines of the highest cell.
abbrev pub tallest : ℕ → List (List Str) → ℕ
tallest n [] = n
tallest n (ls ∷ lss) = tallest (max_of n (length ls)) lss

abbrev pub all_lines : List Str → List (List Str)
all_lines [] = []
all_lines (c ∷ cs) = split_lines c ∷ all_lines cs

-- The writes of the loops, with no test of an index.
abbrev pub put_cell : List (List Str) → ℕ → ℕ → Str → List (List Str)
put_cell rows k j c = elim (get_elem? rows k) [ none ↦ rows | some row ↦ set rows k (set row j c) ]

abbrev pub put_lines : ℕ → ℕ → List Str → List (List Str) → List (List Str)
put_lines j k [] rows = rows
put_lines j k (c ∷ cs) rows = put_lines j (suc k) cs (put_cell rows k j c)

abbrev pub put_cells : ℕ → List Str → List (List Str) → List (List Str)
put_cells j [] rows = rows
put_cells j (c ∷ cs) rows = put_cells (suc j) cs (put_lines j 0 (split_lines c) rows)

-- The same, row by row.
abbrev fill : ℕ → List Str → List (List Str) → List (List Str)
fill j [] rows = rows
fill j (l ∷ ls) [] = []
fill j (l ∷ ls) (row ∷ rows) = set row j l ∷ fill j ls rows

module _ {A : Type 0} where
  set-append :
      (xs : List A) (y z : A) (ys : List A) → set (xs ++ y ∷ ys) (length xs) z ≡ xs ++ z ∷ ys
  set-append [] y z ys = refl
  set-append (x ∷ xs) y z ys = ap (λ (m : List A). x ∷ m) (set-append xs y z ys)

  get_elem?-append :
      (xs : List A) (y : A) (ys : List A) → get_elem? (xs ++ y ∷ ys) (length xs) ≡ some y
  get_elem?-append [] y ys = refl
  get_elem?-append (x ∷ xs) y ys = get_elem?-append xs y ys

  get_elem?-past : (xs : List A) (k : ℕ) → length xs ≤ k → get_elem? xs k ≡ none
  get_elem?-past [] k l = refl
  get_elem?-past (x ∷ xs) zero l = absurd (omega (arith, l))
  get_elem?-past (x ∷ xs) (suc k) l = get_elem?-past xs k (omega (arith, l))

  length-snoc : (xs : List A) (y : A) → length (xs ++ y ∷ []) ≡ suc (length xs)
  length-snoc xs y = omega (arith, length-append xs (y ∷ []))

put_cell-append :
    (done rows : List (List Str)) (row : List Str) (j : ℕ) (c : Str)
    → put_cell (done ++ row ∷ rows) (length done) j c ≡ done ++ set row j c ∷ rows
put_cell-append done rows row j c =
    rw (get_elem?-append done row rows, put_cell) (set-append done row (set row j c) rows)

put_cell-past :
    (rows : List (List Str)) (k j : ℕ) (c : Str) → length rows ≤ k → put_cell rows k j c ≡ rows
put_cell-past rows k j c l = rw (get_elem?-past rows k l, put_cell) refl

put_lines-past :
    (j k : ℕ) (cs : List Str) (rows : List (List Str))
    → length rows ≤ k
    → put_lines j k cs rows ≡ rows
put_lines-past j k [] rows l = refl
put_lines-past j k (c ∷ cs) rows l =
    ap (put_lines j (suc k) cs) (put_cell-past rows k j c l)
    ∙ put_lines-past j (suc k) cs rows (omega (arith, l))

put_lines-fill :
    (j : ℕ) (cs : List Str) (done rows : List (List Str))
    → put_lines j (length done) cs (done ++ rows) ≡ done ++ fill j cs rows
put_lines-fill j [] done rows = refl
put_lines-fill j (c ∷ cs) done [] =
    put_lines-past j (length done) (c ∷ cs) (done ++ [])
      (omega (arith, ap length (append-nil done)))
put_lines-fill j (c ∷ cs) done (row ∷ rows) =
    let more = done ++ set row j c ∷ [] in
    ap (put_lines j (suc (length done)) cs) (put_cell-append done rows row j c)
    ∙ subst
        (λ (k : ℕ).
          put_lines j k cs (done ++ set row j c ∷ rows) ≡ done ++ set row j c ∷ fill j cs rows)
        (length-snoc done (set row j c))
        (ap (put_lines j (length more) cs) (sym (append_assoc done (set row j c ∷ []) rows))
          ∙ put_lines-fill j cs more rows
          ∙ append_assoc done (set row j c ∷ []) (fill j cs rows))

-- Rows whose first cells are filled.
abbrev padded : ℕ → List (List Str) → ℕ → List (List Str)
padded zero lss m = []
padded (suc n) lss m = (heads lss ++ replicate m []) ∷ padded n (tails lss) m

length-heads : (lss : List (List Str)) → length (heads lss) ≡ length lss
length-heads [] = refl
length-heads (ls ∷ lss) = ap suc (length-heads lss)

length-tails : (lss : List (List Str)) → length (tails lss) ≡ length lss
length-tails [] = refl
length-tails (ls ∷ lss) = ap suc (length-tails lss)

heads-snoc :
    (lss : List (List Str)) (ls : List Str) → heads (lss ++ ls ∷ []) ≡ heads lss ++ head_of ls ∷ []
heads-snoc [] ls = refl
heads-snoc (ms ∷ lss) ls = ap (λ (m : List Str). head_of ms ∷ m) (heads-snoc lss ls)

tails-snoc :
    (lss : List (List Str)) (ls : List Str) → tails (lss ++ ls ∷ []) ≡ tails lss ++ tail_of ls ∷ []
tails-snoc [] ls = refl
tails-snoc (ms ∷ lss) ls = ap (λ (m : List (List Str)). tail_of ms ∷ m) (tails-snoc lss ls)

-- One cell more.
row-snoc :
    (lss : List (List Str)) (ls : List Str) (m : ℕ)
    → heads (lss ++ ls ∷ []) ++ replicate m [] ≡ heads lss ++ head_of ls ∷ replicate m []
row-snoc lss ls m =
    ap (λ (r : List Str). r ++ replicate m []) (heads-snoc lss ls)
    ∙ append_assoc (heads lss) (head_of ls ∷ []) (replicate m [])

fill-padded :
    (n : ℕ) (lss : List (List Str)) (ls : List Str) (m : ℕ)
    → fill (length lss) ls (padded n lss (suc m)) ≡ padded n (lss ++ ls ∷ []) m
fill-padded zero lss [] m = refl
fill-padded zero lss (l ∷ ls) m = refl
fill-padded (suc n) lss [] m =
    rw (row-snoc lss [] m, tails-snoc lss [])
      (ap (λ (r : List (List Str)). (heads lss ++ [] ∷ replicate m []) ∷ r)
        (fill-padded n (tails lss) [] m))
fill-padded (suc n) lss (l ∷ ls) m =
    let written : set (heads lss ++ [] ∷ replicate m []) (length lss) l
        ≡ heads lss ++ l ∷ replicate m [] =
      subst
        (λ (k : ℕ). set (heads lss ++ [] ∷ replicate m []) k l ≡ heads lss ++ l ∷ replicate m [])
        (length-heads lss) (set-append (heads lss) [] l (replicate m [])) in
    let rest : fill (length lss) ls (padded n (tails lss) (suc m))
        ≡ padded n (tails lss ++ ls ∷ []) m =
      subst
        (λ (k : ℕ). fill k ls (padded n (tails lss) (suc m)) ≡ padded n (tails lss ++ ls ∷ []) m)
        (length-tails lss) (fill-padded n (tails lss) ls m) in
    rw (row-snoc lss (l ∷ ls) m, tails-snoc lss (l ∷ ls), written, rest) refl

put_cells-padded :
    (n : ℕ) (lss : List (List Str)) (cs : List Str)
    → put_cells (length lss) cs (padded n lss (length cs)) ≡ padded n (lss ++ all_lines cs) 0
put_cells-padded n lss [] = ap (λ (m : List (List Str)). padded n m 0) (sym (append-nil lss))
put_cells-padded n lss (c ∷ cs) =
    rw
      (
        put_lines-fill (length lss) (split_lines c) [] (padded n lss (suc (length cs))),
        fill-padded n lss (split_lines c) (length cs),
      )
      (subst
        (λ (k : ℕ).
          put_cells k cs (padded n (lss ++ split_lines c ∷ []) (length cs))
          ≡ padded n (lss ++ split_lines c ∷ all_lines cs) 0)
        (length-snoc lss (split_lines c))
        (put_cells-padded n (lss ++ split_lines c ∷ []) cs
          ∙ ap (λ (m : List (List Str)). padded n m 0)
              (append_assoc lss (split_lines c ∷ []) (all_lines cs))))

padded-stacked : (n : ℕ) (lss : List (List Str)) → padded n lss 0 ≡ stacked n lss
padded-stacked zero lss = refl
padded-stacked (suc n) lss = rw (append-nil (heads lss), padded-stacked n (tails lss)) refl

padded-blank : (n m : ℕ) → padded n [] m ≡ replicate n (replicate m [])
padded-blank zero m = refl
padded-blank (suc n) m = ap (λ (r : List (List Str)). replicate m [] ∷ r) (padded-blank n m)

-- What the loop over the cells makes of blank rows: the lines of the cells side by side.
pub put_cells-stacked :
    (n : ℕ) (cs : List Str)
    → put_cells 0 cs (replicate n (replicate (length cs) [])) ≡ stacked n (all_lines cs)
put_cells-stacked n cs =
    rw (sym (padded-blank n (length cs)))
      (put_cells-padded n [] cs ∙ padded-stacked n (all_lines cs))

pub row_height-tallest : (n : ℕ) (cs : List Str) → row_height n cs ≡ tallest n (all_lines cs)
unfolding row_height
row_height-tallest n [] = refl
row_height-tallest n (c ∷ cs) =
    row_height-tallest (max_of n (count_newlines c + 1)) cs
    ∙ ap (λ (m : ℕ). tallest (max_of n m) (all_lines cs)) (sym (length-split_lines c))
