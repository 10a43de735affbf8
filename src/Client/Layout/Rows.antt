-- ===== src/Client/Layout/Rows.antt =====
-- chatterc/cli.go, `wrap`: one line, and the lines, column by column.
use chatter.Base.{
  ℕ, zero, suc, ◌+◌, ◌-◌, ◌*◌, ◌≤◌, ◌<◌, true, false, List, [], ◌∷◌, ◌++◌, none, some, ltb, leb,
  ◌==◌, if◌then◌else◌, Str, length, get_elem?, drop, length-append, length-replicate, has_prefix,
  has_prefix_append, append_assoc, ◌≡◌, refl, sym, ap, ◌∙◌, inl, inr, Bool-cases, Option-cases,
  some-injective, some-ne-none, arith,
}
use chatter.Base.Result.{ok}
use chatter.Client.Layout.{spaces, longest_len, padding, cells, lines}
use native.Mathlib.Nat.{suc-mul}

pub drop-append : (s t : Str) (k m : ℕ) → k ≡ length s + m → drop k (s ++ t) ≡ drop m t
drop-append [] t k m e = let same : k ≡ m = omega (arith, e) in rw same refl
drop-append (a ∷ s) t zero m e = absurd (omega (arith, e))
drop-append (a ∷ s) t (suc k) m e = drop-append s t k m (omega (arith, e))

longest_len-le : (n : ℕ) (ws : List Str) → n ≤ longest_len n ws
unfolding longest_len
longest_len-le n [] = omega arith
longest_len-le n (w ∷ ws) = ground (arith, longest_len-le n ws, longest_len-le (length w) ws)

-- No word is longer than the longest.
pub longest_len-get_elem? :
    (ws : List Str) (n i : ℕ) (w : Str) → get_elem? ws i ≡ some w → length w ≤ longest_len n ws
unfolding longest_len
longest_len-get_elem? [] n i w e = absurd (some-ne-none (sym e))
longest_len-get_elem? (x ∷ ws) n zero w e =
    let same = ap length (some-injective e) in
    ground (arith, same, longest_len-le (length x) ws, longest_len-le n ws)
longest_len-get_elem? (x ∷ ws) n (suc i) w e =
    longest_len-get_elem? ws (if ltb n (length x) then length x else n) i w e

module _ (rows longest : ℕ) (words : List Str)
    (fits : (i : ℕ) (w : Str) → get_elem? words i ≡ some w → length w ≤ longest) where
  -- What the loop over the columns returns: the word of each column stands at the column's place.
  pub record Row (c index : ℕ) (text : Str) : Type 0 where
    pub placed :
        (j : ℕ) (w : Str)
        → j < c
        → get_elem? words (index + j * rows) ≡ some w
        → has_prefix w (drop (j * (longest + 2)) text) ≡ true

  abbrev pad_of : ℕ → Str → Str
  pad_of c w = if c == 0 then [] else spaces (longest + 2 - length w)

  cells-none :
      (c index : ℕ) → get_elem? words index ≡ none → cells (suc c) rows longest words index ≡ ok []
  unfolding cells
  cells-none c index n = rw (n, cells) refl

  cells-some :
      (c index : ℕ) (w rest : Str)
      → get_elem? words index ≡ some w
      → cells c rows longest words (index + rows) ≡ ok rest
      → cells (suc c) rows longest words index ≡ ok (w ++ (pad_of c w ++ rest))
  unfolding cells padding
  cells-some c index w rest e r =
      let small : leb (length w) (longest + 2) ≡ true = ground (arith, fits index w e) in
      elim (Bool-cases (c == 0)) [
        | inl y ↦ rw (e, y, r, cells) refl
        | inr n ↦ rw (e, n, small, r, cells) refl
      ]

  get_elem?-end : (ws : List Str) (i k : ℕ) → get_elem? ws i ≡ none → i ≤ k → get_elem? ws k ≡ none
  get_elem?-end [] i k n l = refl
  get_elem?-end (x ∷ ws) zero k n l = absurd (some-ne-none n)
  get_elem?-end (x ∷ ws) (suc i) zero n l = absurd (omega (arith, l))
  get_elem?-end (x ∷ ws) (suc i) (suc k) n l = get_elem?-end ws i k n (omega (arith, l))

  at_column :
      (c index : ℕ) (w0 rest : Str)
      → get_elem? words index ≡ some w0
      → Row c (index + rows) rest
      → (j : ℕ) (w : Str) → j < suc c
      → get_elem? words (index + j * rows) ≡ some w
      → has_prefix w (drop (j * (longest + 2)) (w0 ++ (pad_of c w0 ++ rest))) ≡ true
  at_column c index w0 rest h r zero w l e =
      let here : index + 0 * rows ≡ index = omega arith in
      let none_left : 0 * (longest + 2) ≡ 0 = omega arith in
      let same : w0 ≡ w = some-injective (sym h ∙ rw here at e) in
      rw (none_left, same) (has_prefix_append w (pad_of c w ++ rest))
  at_column c index w0 rest h r (suc j) w l e =
      let more : (c == 0) ≡ false = ground (arith, l) in
      let small = fits index w0 h in
      let index' : index + suc j * rows ≡ index + rows + j * rows = omega (arith, suc-mul j rows) in
      let wide' : length (w0 ++ spaces (longest + 2 - length w0)) ≡ longest + 2 = omega (
        arith,
        length-append w0 (spaces (longest + 2 - length w0)),
        length-replicate {A = ℕ} (longest + 2 - length w0) b' ',
        small,
      ) in
      let skip =
        drop-append (w0 ++ spaces (longest + 2 - length w0)) rest (suc j * (longest + 2))
          (j * (longest + 2)) (omega (arith, wide', suc-mul j (longest + 2))) in
      rw (more, sym (append_assoc w0 (spaces (longest + 2 - length w0)) rest), skip)
        (r.placed j w (omega (arith, l)) (rw index' at e))

  -- The first column, and those behind it.
  Row-cons :
      (c index : ℕ) (w0 rest : Str)
      → get_elem? words index ≡ some w0
      → Row c (index + rows) rest
      → Row (suc c) index (w0 ++ (pad_of c w0 ++ rest))
  Row-cons c index w0 rest h r = record {
    placed = λ j w l e. at_column c index w0 rest h r j w l e;
  }

  cells-Row :
      (c index : ℕ) → (text : Str) × (cells c rows longest words index ≡ ok text) × Row c index text
  unfolding cells
  cells-Row zero index = ([], refl, record { placed = λ j w l e. absurd (omega (arith, l)) })
  cells-Row (suc c) index = elim (Option-cases (get_elem? words index)) [
    | inl n ↦ (
      [],
      cells-none c index n,
      record {
        placed = λ j w l e.
            absurd
              (some-ne-none (sym e ∙ get_elem?-end words index (index + j * rows) n (omega arith)));
      },
    )
    | inr (w0, h) ↦
        let (rest, e, r) = cells-Row c (index + rows) in
        (w0 ++ (pad_of c w0 ++ rest), cells-some c index w0 rest h e, Row-cons c index w0 rest h r)
  ]

  rows_of :
      (indent per_row n i : ℕ) (text : Str) (ls : List Str)
      → Row per_row i text
      → ((k : ℕ)
          → k < n
          → (text' : Str) × (get_elem? ls k ≡ some (spaces indent ++ text'))
            × Row per_row (suc i + k) text')
      → (k : ℕ) → k < suc n
      → (text' : Str) × (get_elem? ((spaces indent ++ text) ∷ ls) k ≡ some (spaces indent ++ text'))
        × Row per_row (i + k) text'
  rows_of indent per_row n i text ls r g zero l =
      let same : i + 0 ≡ i = omega arith in (text, refl, rw same r)
  rows_of indent per_row n i text ls r g (suc k) l =
      let (t, e, r') = g k (omega (arith, l)) in
      let same : i + suc k ≡ suc i + k = omega arith in (t, e, rw same r')

  pub lines-Row :
      (n indent per_row i : ℕ)
      → (ls : List Str) × (lines n indent per_row rows longest words i ≡ ok ls)
        × (length ls ≡ n)
        × ((k : ℕ)
            → k < n
            → (text : Str) × (get_elem? ls k ≡ some (spaces indent ++ text))
              × Row per_row (i + k) text)
  unfolding lines
  lines-Row zero indent per_row i = ([], refl, refl, λ k l. absurd (omega (arith, l)))
  lines-Row (suc n) indent per_row i =
      let (text, e, r) = cells-Row per_row i in
      let (ls, f, l, g) = lines-Row n indent per_row (suc i) in
      (
        (spaces indent ++ text) ∷ ls,
        rw (e, f, lines) refl,
        omega (arith, l),
        λ k b. rows_of indent per_row n i text ls r g k b,
      )
