-- ===== src/Commands/Parser/Total.antt =====
-- chatterc/commands/commands.go, `parseCommand`: it ends on every string, without a panic.
use chatter.Base.{
  ℕ, zero, suc, ◌≤◌, ◌<◌, List, [], ◌∷◌, ◌++◌, Str, codes, length, all_nil, all_cons, refl, inl,
  inr, Bool-cases, Option-cases, arith,
}
use chatter.Base.Result.{Result, ok, err, Result-cases}
use chatter.Commands.Node.{Failure, unexpected_character, expected_close, Ptr, Heap}
use chatter.Commands.Parser.{
  Parser, skip_whitespace, consume, is_element_end, is_eol, ParseAt, parse_options, close_choice,
  parse_choice, parse_element, parse_rest, parse_command,
}
use chatter.Commands.Parser.Graph.{updated, attach-Closed}
use chatter.Commands.Parser.Moves.{
  Moves, moves, Moves-trans, Moves-length, skip_whitespace-Moves, consume-Moves,
}
use chatter.Commands.Parser.Fine.{
  Below, Closed, Complains, Complains-Moves, at_character, at_close, Fine, fine, complains, Fine-ok,
  Fine-err, Fine-Moves, Fine-node, parse_atom-Fine,
}

-- A pointer into the heap.
abbrev Within : ℕ → Ptr → Type 0
Within m c = c < m

-- A parser of elements that keeps its promise on inputs shorter than the bound.
data Reads (bound : ℕ) (element : ParseAt) : Type 0 where
  reads :
      ((p : Parser) (h : Heap) → length p.rest < bound → Closed h → Fine Within 1 p h (element p h))
      → Reads bound element

Below-snoc :
    {m k : ℕ} {cs : List Ptr} {c : Ptr} → m ≤ k → Below m cs → c < k → Below k (cs ++ c ∷ [])
Below-snoc l all_nil x = all_cons x all_nil
Below-snoc l (all_cons y ys) x = all_cons (omega arith) (Below-snoc l ys x)

parse_options-Fine :
    (fuel bound : ℕ) (element : ParseAt) (p : Parser) (h : Heap) (cs : List Ptr)
    → Reads bound element
    → length p.rest < fuel
    → length p.rest < bound
    → Closed h
    → Below (length h) cs
    → Fine Below 0 p h (parse_options element fuel p h cs)
unfolding parse_options
parse_options-Fine zero bound element p h cs r f b c d = absurd (omega arith)
parse_options-Fine (suc fuel) bound element p h cs (reads r) f b c d =
    elim (Option-cases (consume (codes "|") (skip_whitespace p))) [
      | inl n ↦ rw (n, parse_options) (fine (skip_whitespace-Moves p) c (omega arith) d)
      | inr (q, e) ↦
          let bar =
            Moves-trans 1 (skip_whitespace-Moves p) (consume-Moves (codes "|") _ e) (omega arith) in
          let m : Moves 1 p (skip_whitespace q) =
            Moves-trans 1 bar (skip_whitespace-Moves q) (omega arith) in
          let l = Moves-length m in
          let g = r (skip_whitespace q) h (omega (arith, l)) c in
          elim (Result-cases (element (skip_whitespace q) h)) [
            | inl ((x, q', h'), k) ↦
                let (m', c', l', x') = Fine-ok (rw k at g) in
                let n = Moves-length m' in
                rw (e, k, parse_options)
                  (Fine-Moves 0 1 0 (omega arith) (Moves-trans 1 m m' (omega arith)) l' (
                    parse_options-Fine fuel bound element q' h' (cs ++ x ∷ []) (reads r)
                      (omega (arith, l, n)) (omega (arith, l, n)) c' (Below-snoc l' d x')))
            | inr (x, k) ↦
                rw (e, k, parse_options) (complains (Complains-Moves m (Fine-err (rw k at g))))
          ]
    ]

close_choice-Fine :
    (cs : List Ptr) (o p : Parser) (h : Heap)
    → Moves 1 o p
    → Closed h
    → Below (length h) cs
    → Fine Within 1 o h (close_choice o.pos cs p h)
unfolding close_choice
close_choice-Fine cs o p h m c d = elim (Option-cases (consume (codes ">") (skip_whitespace p))) [
  | inl n ↦ rw (n, close_choice) (complains (at_close (omega arith) (omega arith)))
  | inr (q, f) ↦ elim (Bool-cases (is_element_end q)) [
    | inl y ↦
        rw (f, y, close_choice)
          (Fine-node _ c
            (Moves-trans 1 m
              (Moves-trans 0 (skip_whitespace-Moves p)
                (consume-Moves (codes ">") (skip_whitespace p) f) (omega arith))
              (omega arith))
            d)
    | inr n ↦ rw (f, n, close_choice) (complains (at_character (omega arith) (omega arith)))
  ]
]

parse_choice-Fine :
    (bound : ℕ) (element : ParseAt) (o p : Parser) (h : Heap)
    → Reads bound element
    → Moves 1 o p
    → length p.rest < bound
    → Closed h
    → Fine Within 1 o h (parse_choice element o.pos p h)
unfolding parse_choice
parse_choice-Fine bound element o p h (reads r) m b c =
    let s = skip_whitespace-Moves p in
    let ls = Moves-length s in
    let g = r (skip_whitespace p) h (omega (arith, ls)) c in
    elim (Result-cases (element (skip_whitespace p) h)) [
      | inl ((x, q, h1), k) ↦
          let (m1, c1, l1, x1) = Fine-ok (rw k at g) in
          let m2 = Moves-trans 1 m (Moves-trans 1 s m1 (omega arith)) (omega arith) in
          let lq = Moves-length m1 in
          let f =
            parse_options-Fine (suc (length q.rest)) bound element q h1 (x ∷ []) (reads r)
              (omega arith) (omega (arith, ls, lq)) c1 (all_cons x1 all_nil) in
          elim (Result-cases (parse_options element (suc (length q.rest)) q h1 (x ∷ []))) [
            | inl ((cs, q', h2), e) ↦
                let (m3, c3, l3, x3) = Fine-ok (rw e at f) in
                rw (k, e, parse_choice)
                  (Fine-Moves 1 0 1 (omega arith) (moves refl (omega arith)) (omega (arith, l1, l3))
                    (close_choice-Fine cs o q' h2 (Moves-trans 1 m2 m3 (omega arith)) c3 x3))
            | inr (y, e) ↦
                rw (k, e, parse_choice) (complains (Complains-Moves m2 (Fine-err (rw e at f))))
          ]
      | inr (x, k) ↦
          rw (k, parse_choice)
            (complains (Complains-Moves m (Complains-Moves s (Fine-err (rw k at g)))))
    ]

-- Fuel above the length is enough for an element: choices nest at most as deep as the text is long.
parse_element-Fine : (fuel : ℕ) → Reads fuel (parse_element fuel)
unfolding parse_element
parse_element-Fine zero = reads (λ p h b c. absurd (omega arith))
parse_element-Fine (suc fuel) = reads (λ p h b c. elim (Option-cases (consume (codes "<") p)) [
  | inl n ↦ rw n (parse_atom-Fine p h c)
  | inr (q, e) ↦
      let m = consume-Moves (codes "<") p e in
      let l = Moves-length m in
      rw e (parse_choice-Fine fuel _ p q h (parse_element-Fine fuel) m (omega (arith, l)) c)
])

-- What `parseCommand` returns: the root of a graph without dangling pointers, or an error with a place
-- in the declaration or at its end.
pub data Answers (s : Str) : Result Failure (Ptr × Heap) → Type 0 where
  parsed : {root : Ptr} {h : Heap} → Closed h → root < length h → Answers s (ok (root, h))
  unexpected : {n : ℕ} → n ≤ length s → Answers s (err (unexpected_character n))
  unclosed : {n : ℕ} → n ≤ length s → Answers s (err (expected_close n))

data Extends (p : Parser) (h : Heap) : Result Failure Heap → Type 0 where
  extends : {h' : Heap} → Closed h' → length h ≤ length h' → Extends p h (ok h')
  stops : {e : Failure} → Complains p e → Extends p h (err e)

Extends-Moves :
    {k : ℕ} {p q : Parser} {h h' : Heap} {r : Result Failure Heap}
    → Moves k p q
    → length h ≤ length h'
    → Extends q h' r
    → Extends p h r
Extends-Moves m l (extends c n) = extends c (omega arith)
Extends-Moves m l (stops e) = stops (Complains-Moves m e)

parse_rest-Extends :
    (fuel bound : ℕ) (element : ParseAt) (n : Ptr) (p : Parser) (h : Heap)
    → Reads bound element
    → length p.rest < fuel
    → length p.rest < bound
    → Closed h
    → n < length h
    → Extends p h (parse_rest element fuel n p h)
unfolding parse_rest
parse_rest-Extends zero bound element n p h r f b c d = absurd (omega arith)
parse_rest-Extends (suc fuel) bound element n p h (reads r) f b c d =
    elim (Bool-cases (is_eol (skip_whitespace p))) [
      | inl y ↦ rw (y, parse_rest) (extends c (omega arith))
      | inr z ↦
          let s = skip_whitespace-Moves p in
          let l = Moves-length s in
          let g = r (skip_whitespace p) h (omega (arith, l)) c in
          elim (Result-cases (element (skip_whitespace p) h)) [
            | inl ((x, q, h1), k) ↦
                let (m1, c1, l1, x1) = Fine-ok (rw k at g) in
                let lq = Moves-length m1 in
                let (h2, e, c2, l2) = updated (attach-Closed h1 n x c1 (omega (arith, l1)) x1) in
                rw (z, k, e, parse_rest)
                  (Extends-Moves (Moves-trans 1 s m1 (omega arith)) (omega (arith, l1, l2)) (
                    parse_rest-Extends fuel bound element x q h2 (reads r) (omega (arith, l, lq))
                      (omega (arith, l, lq)) c2 (omega (arith, l2, x1))))
            | inr (x, k) ↦ rw (z, k, parse_rest) (stops (Complains-Moves s (Fine-err (rw k at g))))
          ]
    ]

extended : {p : Parser} {h h' : Heap} → Extends p h (ok h') → Closed h' × (length h ≤ length h')
extended (extends c l) = (c, l)

stopped : {p : Parser} {h : Heap} {e : Failure} → Extends p h (err e) → Complains p e
stopped (stops c) = c

run-Reads :
    {bound : ℕ} {element : ParseAt}
    → Reads bound element
    → (p : Parser) (h : Heap) → length p.rest < bound
    → Closed h
    → Fine Within 1 p h (element p h)
run-Reads (reads f) = f

Answers-Complains :
    {s : Str} {e : Failure} → Complains (record { rest = s; pos = 0 }) e → Answers s (err e)
Answers-Complains (at_character a b) = unexpected (omega arith)
Answers-Complains (at_close a b) = unclosed (omega arith)

-- `parseCommand` ends on every declaration and on every heap without dangling pointers, within the
-- fuel it is given, and it never panics: it returns the root of a graph whose pointers are all in
-- the heap, or one of its two errors, with a position that is in the declaration or at its end.
pub parse_command-Answers : (s : Str) (h : Heap) → Closed h → Answers s (parse_command s h)
unfolding parse_command
parse_command-Answers s h c =
    let p : Parser = record { rest = s; pos = 0 } in
    let bound = suc (length s) in
    let m = skip_whitespace-Moves p in
    let l = Moves-length m in
    let r = parse_element-Fine bound in
    let g = run-Reads r (skip_whitespace p) h (omega (arith, l)) c in
    elim (Result-cases (parse_element bound (skip_whitespace p) h)) [
      | inl ((root, q, h1), k) ↦
          let (m1, c1, l1, x1) = Fine-ok (rw k at g) in
          let lq = Moves-length m1 in
          let f =
            parse_rest-Extends (suc (length q.rest)) bound (parse_element bound) root q h1 r
              (omega arith) (omega (arith, l, lq)) c1 x1 in
          elim (Result-cases (parse_rest (parse_element bound) (suc (length q.rest)) root q h1)) [
            | inl (h2, e) ↦
                let (c2, l2) = extended (rw e at f) in rw (k, e) (parsed c2 (omega (arith, x1, l2)))
            | inr (x, e) ↦
                rw (k, e)
                  (Answers-Complains
                    (Complains-Moves (Moves-trans 0 m m1 (omega arith)) (stopped (rw e at f))))
          ]
      | inr (x, k) ↦ rw k (Answers-Complains (Complains-Moves m (Fine-err (rw k at g))))
    ]
