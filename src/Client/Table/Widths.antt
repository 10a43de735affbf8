-- ===== src/Client/Table/Widths.antt =====
-- chatterc/cli.go, `tabulate`: cells and the widths of their columns.
use chatter.Base.{
  ℕ, zero, suc, ◌+◌, ◌≤◌, ◌<◌, List, [], ◌∷◌, some, ◌==◌, Str, length, get_elem?, set, replicate,
  All, all_nil, all_cons, ◌≡◌, refl, ◌∙◌, inl, inr, Bool-cases, some-injective, arith,
}
use chatter.Client.Table.{max_of, add_front, split_lines, count_newlines, row_height}

-- Each width is at most the other's.
pub data Below : List ℕ → List ℕ → Type 0 where
  below_nil : Below [] []
  below_cons : {w v : ℕ} {ws vs : List ℕ} → w ≤ v → Below ws vs → Below (w ∷ ws) (v ∷ vs)

-- There is a cell for each column, and it is no longer than the column is wide.
pub data Fits : List ℕ → List Str → Type 0 where
  fits_nil : Fits [] []
  fits_cons :
      {w : ℕ} {c : Str} {ws : List ℕ} {cs : List Str}
      → length c ≤ w
      → Fits ws cs
      → Fits (w ∷ ws) (c ∷ cs)

pub Below-refl : (ws : List ℕ) → Below ws ws
Below-refl [] = below_nil
Below-refl (w ∷ ws) = below_cons (omega arith) (Below-refl ws)

pub Below-trans : {us vs ws : List ℕ} → Below us vs → Below vs ws → Below us ws
Below-trans below_nil below_nil = below_nil
Below-trans (below_cons l a) (below_cons m b) = below_cons (omega (arith, l, m)) (Below-trans a b)

pub Below-length : {vs ws : List ℕ} → Below vs ws → length ws ≡ length vs
Below-length below_nil = refl
Below-length (below_cons l a) = omega (arith, Below-length a)

pub Fits-Below : {vs ws : List ℕ} {row : List Str} → Below vs ws → Fits vs row → Fits ws row
Fits-Below below_nil fits_nil = fits_nil
Fits-Below (below_cons l a) (fits_cons m f) = fits_cons (omega (arith, l, m)) (Fits-Below a f)

pub Fits-length : {ws : List ℕ} {row : List Str} → Fits ws row → length row ≡ length ws
Fits-length fits_nil = refl
Fits-length (fits_cons l f) = omega (arith, Fits-length f)

pub All-Below :
    {vs ws : List ℕ} {rows : List (List Str)}
    → Below vs ws
    → All (Fits vs) rows
    → All (Fits ws) rows
All-Below b all_nil = all_nil
All-Below b (all_cons f w) = all_cons (Fits-Below b f) (All-Below b w)

pub max_of-left : (a b : ℕ) → a ≤ max_of a b
max_of-left a b = ground arith

pub max_of-right : (a b : ℕ) → b ≤ max_of a b
max_of-right a b = ground arith

-- A column that is made wide enough.
pub Below-set :
    (ws : List ℕ) (j n : ℕ) {w : ℕ} → get_elem? ws j ≡ some w → Below ws (set ws j (max_of w n))
Below-set [] j n e = below_nil
Below-set (v ∷ ws) zero n {w} e =
    let same : v ≡ w = some-injective e in
    below_cons (omega (arith, same, max_of-left w n)) (Below-refl ws)
Below-set (v ∷ ws) (suc j) n e = below_cons (omega arith) (Below-set ws j n e)

pub Fits-set :
    {ws : List ℕ} {row : List Str} (j : ℕ) (c : Str) {w : ℕ}
    → Fits ws row
    → get_elem? ws j ≡ some w
    → Fits (set ws j (max_of w (length c))) (set row j c)
Fits-set j c fits_nil e = fits_nil
Fits-set zero c {w} (fits_cons l f) e = fits_cons (max_of-right w (length c)) f
Fits-set (suc j) c (fits_cons l f) e = fits_cons l (Fits-set j c f e)

pub get_elem?-some : (ws : List ℕ) (j : ℕ) → j < length ws → (w : ℕ) × (get_elem? ws j ≡ some w)
get_elem?-some [] j l = absurd (omega (arith, l))
get_elem?-some (w ∷ ws) zero l = (w, refl)
get_elem?-some (w ∷ ws) (suc j) l = get_elem?-some ws j (omega (arith, l))

pub length-add_front : (b : ℕ) (ls : List Str) → 0 < length ls → length (add_front b ls) ≡ length ls
length-add_front b [] l = absurd (omega (arith, l))
length-add_front b (x ∷ ls) l = refl

pub length-split_lines : (s : Str) → length (split_lines s) ≡ count_newlines s + 1
unfolding split_lines count_newlines
length-split_lines [] = omega arith
length-split_lines (b ∷ s) = elim (Bool-cases (b == 10)) [
  | inl y ↦ rw y (omega (arith, length-split_lines s))
  | inr n ↦ rw n (
      length-add_front b (split_lines s) (omega (arith, length-split_lines s))
      ∙ length-split_lines s)
]

pub row_height-le :
    (n : ℕ) (row : List Str)
    → (n ≤ row_height n row) × All (λ (c : Str). count_newlines c + 1 ≤ row_height n row) row
unfolding row_height
row_height-le n [] = (omega arith, all_nil)
row_height-le n (c ∷ cs) =
    let m = max_of n (count_newlines c + 1) in
    let (l, h) = row_height-le m cs in
    (
      omega (arith, l, max_of-left n (count_newlines c + 1)),
      all_cons (omega (arith, l, max_of-right n (count_newlines c + 1))) h,
    )

pub empty-Fits : (ws : List ℕ) → Fits ws (replicate (length ws) [])
empty-Fits [] = fits_nil
empty-Fits (w ∷ ws) = fits_cons (omega arith) (empty-Fits ws)

pub All-replicate :
    (n : ℕ) (ws : List ℕ) (row : List Str) → Fits ws row → All (Fits ws) (replicate n row)
All-replicate zero ws row f = all_nil
All-replicate (suc n) ws row f = all_cons f (All-replicate n ws row f)
