-- ===== src/Commands/Parser/Fine.antt =====
-- chatterc/commands/commands.go, `commandParser`: what a reader of an element promises, and the
-- readers of the elements that are no choice.
use chatter.Base.{
  ℕ, ◌+◌, ◌≤◌, ◌<◌, true, List, [], ◌∷◌, ◌++◌, Option, none, some, if◌then◌else◌, Str, codes,
  length, length-append, All, all_nil, all_cons, All-append, ◌≡◌, refl, inl, inr, Bool-cases,
  Option-cases, arith,
}
use chatter.Base.Result.{Result, ok, err}
use chatter.Commands.Node.{
  NodeType, param_ipv4, param_ipv6, Failure, unexpected_character, expected_close, Ptr, Node, Heap,
}
use chatter.Commands.Parser.{
  Parser, span, consume, is_upper, lit_start, lit_rest, peek, is_element_end, param, string_param,
  parse_literal, or_else, parse_atom,
}
use chatter.Commands.Parser.Moves.{Moves, moves, Moves-trans, span-Moves_one, consume-Moves}

abbrev pub Below : ℕ → List Ptr → Type 0
Below m ps = All (λ c. c < m) ps

-- The children of every node are in the heap: no pointer dangles.
pub data Closed (h : Heap) : Type 0 where
  closed : All (λ n. Below (length h) n.children) h → Closed h

Below-weaken : {m k : ℕ} {ps : List Ptr} → m ≤ k → Below m ps → Below k ps
Below-weaken h all_nil = all_nil
Below-weaken h (all_cons x xs) = all_cons (omega arith) (Below-weaken h xs)

pub Closed-map :
    {m k : ℕ} {h : Heap} → m ≤ k → All (λ n. Below m n.children) h → All (λ n. Below k n.children) h
Closed-map l all_nil = all_nil
Closed-map l (all_cons x xs) = all_cons (Below-weaken l x) (Closed-map l xs)

pub Closed-append :
    {h : Heap} (n : Node) → Closed h → Below (length h) n.children → Closed (h ++ n ∷ [])
Closed-append {h} n (closed c) b =
    let e = length-append h (n ∷ []) in
    closed
      (All-append (Closed-map (omega arith) c) (all_cons (Below-weaken (omega arith) b) all_nil))

-- An error that the parser reports, with its place in what is left of the declaration or at its end.
pub data Complains (p : Parser) : Failure → Type 0 where
  at_character :
      {n : ℕ} → p.pos ≤ n → n ≤ p.pos + length p.rest → Complains p (unexpected_character n)
  at_close : {n : ℕ} → p.pos ≤ n → n ≤ p.pos + length p.rest → Complains p (expected_close n)

pub Complains-Moves :
    {k : ℕ} {p q : Parser} {e : Failure} → Moves k p q → Complains q e → Complains p e
Complains-Moves (moves a b) (at_character c d) = at_character (omega arith) (omega arith)
Complains-Moves (moves a b) (at_close c d) = at_close (omega arith) (omega arith)

-- What a reader promises from the state p and the closed heap h: it reads k bytes at least, the
-- heap has grown and is closed, and its result is right for the heap; or it reports an error with
-- a place.
pub data Fine {C : Type 0} (P : ℕ → C → Type 0) (k : ℕ) (p : Parser) (h : Heap)
    : Result Failure (C × Parser × Heap) → Type 0 where
  fine :
      {c : C} {q : Parser} {h' : Heap}
      → Moves k p q
      → Closed h'
      → length h ≤ length h'
      → P (length h') c
      → Fine P k p h (ok (c, q, h'))
  complains : {e : Failure} → Complains p e → Fine P k p h (err e)

pub Fine-ok :
    {C : Type 0} {P : ℕ → C → Type 0} {k : ℕ} {p q : Parser} {h h' : Heap} {c : C}
    → Fine P k p h (ok (c, q, h'))
    → Moves k p q × Closed h' × (length h ≤ length h') × P (length h') c
Fine-ok (fine a b c d) = (a, b, c, d)

pub Fine-err :
    {C : Type 0} {P : ℕ → C → Type 0} {k : ℕ} {p : Parser} {h : Heap} {e : Failure}
    → Fine P k p h (err e)
    → Complains p e
Fine-err (complains c) = c

pub Fine-Moves :
    {C : Type 0} {P : ℕ → C → Type 0} (i j k : ℕ) {p q : Parser} {h h' : Heap}
    {r : Result Failure (C × Parser × Heap)}
    → i ≤ j + k
    → Moves j p q
    → length h ≤ length h'
    → Fine P k q h' r
    → Fine P i p h r
Fine-Moves i j k l m g (fine n c g' x) = fine (Moves-trans i m n l) c (omega arith) x
Fine-Moves i j k l m g (complains e) = complains (Complains-Moves m e)

-- A node that is appended to the heap, and whose children are in it.
pub Fine-node :
    {k : ℕ} {p q : Parser} {h : Heap} (n : Node)
    → Closed h
    → Moves k p q
    → Below (length h) n.children
    → Fine (λ m c. c < m) k p h (ok (length h, q, h ++ n ∷ []))
Fine-node {h} n c m b =
    let e = length-append h (n ∷ []) in fine m (Closed-append n c b) (omega arith) (omega arith)

data FineOption (p : Parser) (h : Heap) : Option (Ptr × Parser × Heap) → Type 0 where
  fine_none : FineOption p h none
  fine_some : {r : Ptr × Parser × Heap} → Fine (λ m c. c < m) 1 p h (ok r) → FineOption p h (some r)

param-Fine :
    (text : Str) (t : NodeType) (p : Parser) (h : Heap)
    → 1 ≤ length text
    → Closed h
    → FineOption p h (param text t p h)
unfolding param
param-Fine text t p h l c = elim (Option-cases (consume (text) p)) [
  | inl n ↦ rw (n, param) fine_none
  | inr (q, f) ↦ elim (Bool-cases (is_element_end q)) [
    | inl y ↦
        rw (f, y, param)
          (fine_some (
            Fine-node _ c
              (Moves-trans {k = 0} 1 (consume-Moves (text) p f) (moves refl (omega arith))
                (omega arith))
              all_nil))
    | inr n ↦ rw (f, n, param) fine_none
  ]
]

string_param-Fine :
    (p : Parser) (h : Heap)
    → Closed h
    → is_upper (peek p) ≡ true
    → FineOption p h (string_param p h)
unfolding string_param
string_param-Fine p h c y =
    let m = span-Moves_one is_upper p.rest p.pos y refl in
    elim (Bool-cases (is_element_end (span is_upper p.rest p.pos).1)) [
      | inl y ↦ rw y (fine_some (Fine-node _ c m all_nil))
      | inr n ↦ rw n fine_none
    ]

parse_literal-Fine :
    (p : Parser) (h : Heap)
    → Closed h
    → lit_start (peek p) ≡ true
    → Fine (λ m c. c < m) 1 p h (parse_literal p h)
unfolding parse_literal
parse_literal-Fine p h c y =
    let m = span-Moves_one lit_rest p.rest p.pos (ground arith) refl in
    elim (Bool-cases (is_element_end (span lit_rest p.rest p.pos).1)) [
      | inl y ↦ rw y (Fine-node _ c m all_nil)
      | inr n ↦ rw n (complains (at_character (omega arith) (omega arith)))
    ]

or_else-Fine :
    {p : Parser} {h : Heap} {o : Option (Ptr × Parser × Heap)}
    {r : Result Failure (Ptr × Parser × Heap)}
    → FineOption p h o
    → Fine (λ m c. c < m) 1 p h r
    → Fine (λ m c. c < m) 1 p h (or_else o r)
unfolding or_else
or_else-Fine fine_none f = f
or_else-Fine (fine_some g) f = g

upper-Fine :
    (p : Parser) (h : Heap)
    → Closed h
    → FineOption p h (if is_upper (peek p) then string_param p h else none)
upper-Fine p h c = elim (Bool-cases (is_upper (peek p))) [
  | inl y ↦ rw y (string_param-Fine p h c y)
  | inr n ↦ rw n fine_none
]

word-Fine :
    (p : Parser) (h : Heap)
    → Closed h
    → Fine
        (λ m c. c < m)
        1
        p
        h
        (if lit_start (peek p) then parse_literal p h else err (unexpected_character p.pos))
word-Fine p h c = elim (Bool-cases (lit_start (peek p))) [
  | inl y ↦ rw y (parse_literal-Fine p h c y)
  | inr n ↦ rw n (complains (at_character (omega arith) (omega arith)))
]

pub parse_atom-Fine :
    (p : Parser) (h : Heap) → Closed h → Fine (λ m c. c < m) 1 p h (parse_atom p h)
unfolding parse_atom
parse_atom-Fine p h c = or_else-Fine (param-Fine (codes "A.B.C.D") param_ipv4 p h (omega arith) c) (
    or_else-Fine (param-Fine (codes "X:X:X::X") param_ipv6 p h (omega arith) c)
      (or_else-Fine (upper-Fine p h c) (word-Fine p h c)))
