-- ===== src/Client/Layout/Columns.antt =====
-- chatterc/cli.go, `wrap`: where each word is printed.
use chatter.Base.{
  ℕ, zero, suc, ◌+◌, ◌-◌, ◌*◌, ◌/◌, ◌%◌, ◌≤◌, ◌<◌, true, List, [], ◌∷◌, ◌++◌, some, leb, ◌==◌, Str,
  length, get_elem?, drop, length-replicate, has_prefix, ◌≡◌, refl, sym, ◌⊎◌, inl, inr, Bool-cases,
  some-ne-none, arith,
}
use chatter.Base.Result.{ok}
use chatter.Client.Layout.{spaces, longest_len, lines, row_count, in_columns, wrap}
use native.Mathlib.Nat.{
  add-mul, one-mul, mul_comm, mul-zero, mod-add-div', mod-lt, div-lt_iff_lt-mul, lt-div-mul-add,
}
use chatter.Client.Layout.Rows.{drop-append, longest_len-get_elem?, lines-Row}

-- All words stand in the lines: word k in line k modulo the number of lines, in the column that the
-- division gives, which is one of the columns that there is room for.
pub record Columns (indent per_row width : ℕ) (words ls : List Str) : Type 0 where
  pub how_many : length ls ≡ row_count (length words) per_row
  pub column :
      (k : ℕ) (w : Str)
      → get_elem? words k ≡ some w
      → (line : Str) × (get_elem? ls (k % length ls) ≡ some line)
        × (has_prefix w (drop (indent + k / length ls * width) line) ≡ true)
        × (k / length ls < per_row)

get_elem?-lt : (ws : List Str) (k : ℕ) (w : Str) → get_elem? ws k ≡ some w → k < length ws
get_elem?-lt [] k w e = absurd (some-ne-none (sym e))
get_elem?-lt (x ∷ ws) zero w e = omega arith
get_elem?-lt (x ∷ ws) (suc k) w e = omega (arith, get_elem?-lt ws k w e)

-- There are enough places.
row_count-le : (n p : ℕ) → 0 < p → n ≤ p * row_count n p
row_count-le n p h = elim (Bool-cases (n % p == 0)) [
  | inl y ↦
      let z : n % p ≡ 0 = ground (arith, y) in
      let e : n / p + 0 ≡ n / p = omega arith in
      rw (y, e, mul_comm p (n / p)) (omega (arith, mod-add-div' n p, z))
  | inr m ↦
      rw (m, mul_comm p (n / p + 1), add-mul (n / p) 1 p, one-mul p)
        (omega (arith, mod-add-div' n p, mod-lt n h))
]

pos_of_room : (k n p rows : ℕ) → k < n → n ≤ p * rows → 0 < rows
pos_of_room k n p zero s r = absurd (omega (arith, s, r, mul-zero p))
pos_of_room k n p (suc rows) s r = omega arith

lines-Columns :
    (indent p : ℕ) (words : List Str)
    → 0 < p
    → (ls : List Str) × (lines
          (row_count (length words) p)
          indent
          p
          (row_count (length words) p)
          (longest_len 0 words)
          words
          0
        ≡ ok ls)
      × Columns indent p (longest_len 0 words + 2) words ls
lines-Columns indent p words h =
    let rows = row_count (length words) p in
    let longest = longest_len 0 words in
    let (ls, e, l, g) =
      lines-Row rows longest words (λ i w. longest_len-get_elem? words 0 i w) rows indent p 0 in
    (
      ls,
      e,
      record {
        how_many = l;
        column = λ k w f.
            let small = get_elem?-lt words k w f in
            let room = row_count-le (length words) p h in
            let some_row : 0 < rows = pos_of_room k (length words) p rows small room in
            let (text, a, r) = g (k % rows) (mod-lt k some_row) in
            let back : 0 + k % rows + k / rows * rows ≡ k = omega (arith, mod-add-div' k rows) in
            let inside : k / rows < p =
              (div-lt_iff_lt-mul some_row).1 (omega (arith, small, room)) in
            rw l (
              spaces indent ++ text,
              a,
              rw
                  (drop-append (spaces indent) text (indent + k / rows * (longest + 2))
                    (k / rows * (longest + 2))
                    (omega (arith, length-replicate {A = ℕ} indent b' ')))
                  (r.placed (k / rows) w inside (rw back f)),
              inside,
            );
      },
    )

below_divisor : (a b : ℕ) → a / (b + 2) ≡ 0 → a < b + 2
below_divisor a b z =
    let h : a < a / (b + 2) * (b + 2) + (b + 2) = lt-div-mul-add (omega arith) in
    omega (arith, rw z at h)

-- On a terminal at least as wide as the indent, wrap does not panic. It returns the words as they are,
-- one for each line, where no column has room; and otherwise as many lines as are needed, in which
-- every word stands in its column, the columns as wide as the longest word and two spaces.
pub wrap-Columns :
    (width indent : ℕ) (words : List Str)
    → indent ≤ width
    → (ls : List Str) × (wrap (some width) indent words ≡ ok ls)
      × (((width - indent < longest_len 0 words + 2) × (ls ≡ words))
          ⊎ Columns indent
              ((width - indent) / (longest_len 0 words + 2))
              (longest_len 0 words + 2)
              words
              ls)
unfolding wrap in_columns
wrap-Columns width indent words l =
    let p = (width - indent) / (longest_len 0 words + 2) in
    let fits : leb indent width ≡ true = ground (arith, l) in
    elim (Bool-cases (p == 0)) [
      | inl y ↦
          let z : p ≡ 0 = ground (arith, y) in
          (
            words,
            rw (fits, y) refl,
            inl (below_divisor (width - indent) (longest_len 0 words) z, refl),
          )
      | inr n ↦
          let pos : 0 < p = ground (arith, n) in
          let (ls, e, c) = lines-Columns indent p words pos in (ls, rw (fits, n) e, inr c)
    ]
