-- ===== src/Client/Table/Least.antt =====
-- chatterc/cli.go, `tabulate`: no column gets wider than it has to be.
use chatter.Base.{
  ℕ, zero, suc, ◌≤◌, List, [], ◌∷◌, ◌++◌, some, ◌==◌, Str, length, get_elem?, set, All, all_nil,
  all_cons, ◌≡◌, inl, inr, Bool-cases, Option-cases, some-injective, arith,
}
use chatter.Base.Result.{Result, ok, err, ◌>>=◌, Result-cases}
use chatter.Client.Table.{
  TableError, max_of, split_lines, write_at, widen, write_lines, write_cells, explode, all_rows,
}
use chatter.Client.Table.Widths.{Below, below_nil, below_cons}

-- From the column of the given number on, the widths have room for each line of each cell.
pub data RoomFrom (us : List ℕ) : ℕ → List Str → Type 0 where
  room_nil : {j : ℕ} → RoomFrom us j []
  room_cons :
      {j v : ℕ} {cell : Str} {cells : List Str}
      → get_elem? us j ≡ some v
      → All (λ (l : Str). length l ≤ v) (split_lines cell)
      → RoomFrom us (suc j) cells
      → RoomFrom us j (cell ∷ cells)

-- The widths have room for the cells of every item.
abbrev pub Roomy : {E : Type 0} {T : Type 0} → (T → Result E (List Str)) → List T → List ℕ → Type 0
Roomy f items us = All (λ item. (row : List Str) → f item ≡ ok row → RoomFrom us 0 row) items

-- The widths that a loop leaves, if it leaves any, are below the given ones.
pub data Under {E : Type 0} (us : List ℕ)
    : Result (TableError E) (List (List Str) × List ℕ) → Type 0 where
  under_ok : {rows : List (List Str)} {ws : List ℕ} → Below ws us → Under us (ok (rows, ws))
  under_err : {e : TableError E} → Under us (err e)

Below-widen :
    {ws us : List ℕ} (j n : ℕ) {w v : ℕ}
    → Below ws us
    → get_elem? ws j ≡ some w
    → get_elem? us j ≡ some v
    → n ≤ v
    → Below (set ws j (max_of w n)) us
Below-widen j n below_nil d e l = below_nil
Below-widen zero n {w} {v} (below_cons {w = x} {v = y} m b) d e l =
    let xw : x ≡ w = some-injective d in
    let yv : y ≡ v = some-injective e in below_cons (ground (arith, xw, yv, m, l)) b
Below-widen (suc j) n (below_cons m b) d e l = below_cons m (Below-widen j n b d e l)

module _ {E : Type 0} (us : List ℕ) where
  Under-then :
      {r : Result (TableError E) (List (List Str) × List ℕ)}
      (next : List (List Str) × List ℕ → Result (TableError E) (List (List Str) × List ℕ))
      → Under us r
      → ((rows : List (List Str)) (ws : List ℕ) → Below ws us → Under us (next (rows, ws)))
      → Under us (r >>= next)
  Under-then next (under_ok {rows} {ws} b) h = h rows ws b
  Under-then next under_err h = under_err

  write_lines-Under :
      (j k : ℕ) (cs : List Str) (rows : List (List Str)) (ws : List ℕ) {v : ℕ}
      → get_elem? us j ≡ some v
      → All (λ (l : Str). length l ≤ v) cs
      → Below ws us
      → Under {E = E} us (write_lines j k cs rows ws)
  unfolding write_lines widen
  write_lines-Under j k [] rows ws e a b = under_ok b
  write_lines-Under j k (c ∷ cs) rows ws e (all_cons l a) b =
      elim (Result-cases (write_at {E = E} rows k j c)) [
        | inr (x, p) ↦ rw (p, write_lines) under_err
        | inl (rows', p) ↦ elim (Option-cases (get_elem? ws j)) [
          | inl n ↦ rw (p, n, write_lines, widen) under_err
          | inr (w, d) ↦
              rw (p, d, write_lines, widen)
                (write_lines-Under j (suc k) cs rows' (set ws j (max_of w (length c))) e a
                  (Below-widen j (length c) b d e l))
        ]
      ]

  write_cells-Under :
      (j : ℕ) (cells : List Str) (rows : List (List Str)) (ws : List ℕ)
      → RoomFrom us j cells
      → Below ws us
      → Under {E = E} us (write_cells j cells rows ws)
  unfolding write_cells
  write_cells-Under j [] rows ws room_nil b = under_ok b
  write_cells-Under j (cell ∷ cells) rows ws (room_cons e a r) b =
      Under-then (λ (q : List (List Str) × List ℕ). write_cells (suc j) cells q.0 q.1)
        (write_lines-Under j 0 (split_lines cell) rows ws e a b)
        (λ rows' ws' b'. write_cells-Under (suc j) cells rows' ws' r b')

  module _ {T : Type 0} (f : T → Result E (List Str)) where
    pub all_rows-Under :
        (columns i : ℕ) (items : List T) (rows : List (List Str)) (ws : List ℕ)
        → Roomy f items us
        → Below ws us
        → Under us (all_rows f columns i items rows ws)
    unfolding all_rows explode
    all_rows-Under columns i [] rows ws all_nil b = under_ok b
    all_rows-Under columns i (item ∷ items) rows ws (all_cons h hs) b =
        elim (Result-cases (f item)) [
          | inr (e, p) ↦ rw (p, all_rows) under_err
          | inl (row, p) ↦ elim (Bool-cases (length row == columns)) [
            | inr n ↦ rw (p, n, all_rows) under_err
            | inl y ↦
                rw (p, y, all_rows)
                  (Under-then
                    (λ (q : List (List Str) × List ℕ).
                      all_rows f columns (suc i) items (rows ++ q.0) q.1)
                    (write_cells-Under 0 row _ ws (h row p) b)
                    (λ new ws' b'. all_rows-Under columns (suc i) items (rows ++ new) ws' hs b'))
          ]
        ]
