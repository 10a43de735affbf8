-- ===== src/Commands/Disambiguate/Exact.antt =====
-- Exact literals: the first round prefers them, and a later round takes the wrong match.
use chatter.Base.{
  ℕ, ◌+◌, Bool, true, false, List, [], ◌∷◌, ◌++◌, ◌≡◌, refl, sym, ap, ◌∙◌, Str, All, all_nil,
  all_cons, arith, append_assoc, append-nil, length, length-append, leb, if◌then◌else◌, Bool-cases,
  inl, inr,
}
use chatter.Base.Result.{Result, ok, err}
use chatter.Commands.Node.{Failure, Node, Heap, load}
use chatter.Commands.Matching.{Link, Match}
use chatter.Commands.Disambiguate.{
  Round, no_round, is_exact, at, add, split_round, chosen, rounds, disambiguate,
}

-- The first node of a match, and whether it is a literal that is the token.
pub record Heads (h : Heap) (t : Str) (exact : Bool) (m : Match) : Type 0 where
  pub link : Link
  pub next : Match
  pub node : Node
  pub is : m ≡ link ∷ next
  pub loaded : load h link.node ≡ ok node
  pub tests : is_exact node t ≡ exact

abbrev pub tail_of : Match → Match
tail_of [] = []
tail_of (l ∷ m) = m

at_middle :
    (pre : List Match) (m : Match) (ms : List Match) → at (pre ++ m ∷ ms) (length pre) ≡ ok m
at_middle [] m ms = refl
at_middle (x ∷ pre) m ms = at_middle pre m ms

module _ (h : Heap) (t : Str) where
  split_round_nil : (roots : List Match) (i : ℕ) (r : Round) → split_round h roots t i [] r ≡ ok r
  unfolding split_round
  split_round_nil roots i r = refl

  split_round_cons :
      {exact : Bool} {m : Match} (roots : List Match) (i : ℕ) (ms : List Match) (r : Round)
      {root : Match}
      → Heads h t exact m
      → at roots i ≡ ok root
      → split_round h roots t i (m ∷ ms) r
        ≡ split_round h roots t (i + 1) ms (add exact root (tail_of m) r)
  unfolding split_round
  split_round_cons roots i ms r g e = rw (g.is, split_round, g.loaded, e, g.tests)

  -- `rounds` on one token, from the outcome of its round.
  rounds_cons :
      (roots : List Match) (ts : List Str) (ms d : List Match) {r : Round}
      → split_round h roots t 0 ms no_round ≡ ok r
      → rounds h roots (t ∷ ts) ms d ≡ (elim (leb (length (chosen r).0) 1) [
        | true ↦ ok (chosen r).0
        | false ↦ rounds h roots ts (chosen r).1 (chosen r).0
      ])
  unfolding rounds
  rounds_cons roots ts ms d e = rw (e, rounds)

module _ (h : Heap) (t1 t2 : Str) (ts : List Str) (x y z w : Match) where
  abbrev four : List Match
  four = x ∷ y ∷ z ∷ w ∷ []

  first_round :
      Heads h t1 false x
      → Heads h t1 false y
      → Heads h t1 true z
      → Heads h t1 true w
      → split_round h four t1 0 four no_round
        ≡ ok (record {
          exact_roots = z ∷ w ∷ [];
          exact_matches = tail_of z ∷ tail_of w ∷ [];
          non_exact_roots = x ∷ y ∷ [];
          non_exact_matches = tail_of x ∷ tail_of y ∷ [];
        })
  first_round gx gy gz gw =
      split_round_cons h t1 four 0 _ _ gx refl
      ∙ split_round_cons h t1 four 1 _ _ gy refl
      ∙ split_round_cons h t1 four 2 _ _ gz refl
      ∙ split_round_cons h t1 four 3 _ _ gw refl
      ∙ split_round_nil h t1 four 4 _

  second_round :
      Heads h t2 true (tail_of z)
      → Heads h t2 false (tail_of w)
      → split_round h four t2 0 (tail_of z ∷ tail_of w ∷ []) no_round
        ≡ ok (record {
          exact_roots = x ∷ [];
          exact_matches = tail_of (tail_of z) ∷ [];
          non_exact_roots = y ∷ [];
          non_exact_matches = tail_of (tail_of w) ∷ [];
        })
  second_round gz gw =
      split_round_cons h t2 four 0 _ _ gz refl
      ∙ split_round_cons h t2 four 1 _ _ gw refl
      ∙ split_round_nil h t2 four 2 _

  -- Of four matches the last two have the first token as an exact literal, and the third alone
  -- has the second token so; the code then returns the first match.
  pub disambiguate_misplaces :
      Heads h t1 false x
      → Heads h t1 false y
      → Heads h t1 true z
      → Heads h t1 true w
      → Heads h t2 true (tail_of z)
      → Heads h t2 false (tail_of w)
      → disambiguate h (t1 ∷ t2 ∷ ts) (x ∷ y ∷ z ∷ w ∷ []) ≡ ok (x ∷ [])
  unfolding disambiguate
  disambiguate_misplaces gx gy gz gw gz2 gw2 =
      rounds_cons h t1 four (t2 ∷ ts) four [] (first_round gx gy gz gw)
      ∙ rounds_cons h t2 four ts (tail_of z ∷ tail_of w ∷ []) (z ∷ w ∷ []) (second_round gz2 gw2)

-- Is the first node of the match a literal that is the token?
abbrev pub exact_first : Heap → Str → Match → Bool
exact_first h t [] = false
exact_first h t (l ∷ m) = elim (load h l.node) [ ok n ↦ is_exact n t | err _ ↦ false ]

-- The matches that are exact so, and the others, both in order.
abbrev pub exacts : Heap → Str → List Match → List Match
exacts h t [] = []
exacts h t (m ∷ ms) = if exact_first h t m then m ∷ exacts h t ms else exacts h t ms

abbrev inexacts : Heap → Str → List Match → List Match
inexacts h t [] = []
inexacts h t (m ∷ ms) = if exact_first h t m then inexacts h t ms else m ∷ inexacts h t ms

-- The exact matches, or all where there is none.
abbrev pub prefer_exact : List Match → List Match → List Match
prefer_exact [] all = all
prefer_exact (m ∷ ms) all = m ∷ ms

-- The match has a first node, which is in the heap.
pub data Loaded (h : Heap) (m : Match) : Type 0 where
  loaded : (l : Link) (next : Match) (n : Node) → m ≡ l ∷ next → load h l.node ≡ ok n → Loaded h m

Loaded-Heads : (h : Heap) (t : Str) {m : Match} → Loaded h m → Heads h t (exact_first h t m) m
Loaded-Heads h t {m} (loaded l next n is e) = record {
  link = l;
  next = next;
  node = n;
  is = is;
  loaded = e;
  tests = sym (rw (is, exact_first, e));
}

cons-ne-nil {ℓ} : {A : Type ℓ} {x : A} {xs : List A} → ¬ (x ∷ xs ≡ [])
cons-ne-nil e = cc

module _ (h : Heap) (t : Str) where
  -- The outcome of the first round, where entry and root agree.
  record Splits (roots ms : List Match) (i : ℕ) (r : Round) : Type 0 where
    round : Round
    runs : split_round h roots t i ms r ≡ ok round
    exact : round.exact_roots ≡ r.exact_roots ++ exacts h t ms
    other : round.non_exact_roots ≡ r.non_exact_roots ++ inexacts h t ms

  add_roots :
      (b : Bool) (m next : Match) (ms : List Match) (r : Round)
      → ((add b m next r).exact_roots ++ exacts h t ms
          ≡ r.exact_roots ++ (if b then m ∷ exacts h t ms else exacts h t ms))
        × ((add b m next r).non_exact_roots ++ inexacts h t ms
            ≡ r.non_exact_roots ++ (if b then inexacts h t ms else m ∷ inexacts h t ms))
  add_roots true m next ms r = (append_assoc r.exact_roots (m ∷ []) _, refl)
  add_roots false m next ms r = (refl, append_assoc r.non_exact_roots (m ∷ []) _)

  split_first :
      (pre ms : List Match) (i : ℕ) (r : Round)
      → i ≡ length pre
      → All (Loaded h) ms
      → Splits (pre ++ ms) ms i r
  split_first pre [] i r e all_nil = record {
    round = r;
    runs = split_round_nil h t (pre ++ []) i r;
    exact = sym (append-nil _);
    other = sym (append-nil _);
  }
  split_first pre (m ∷ ms) i r e (all_cons g gs) =
      let b : Bool = exact_first h t m in
      let s =
        split_first (pre ++ m ∷ []) ms (i + 1) (add b m (tail_of m) r)
          (omega (arith, e, length-append pre (m ∷ []))) gs in
      let (x, y) = add_roots b m (tail_of m) ms r in
      record {
        round = s.round;
        runs =
            split_round_cons h t (pre ++ m ∷ ms) i ms r (Loaded-Heads h t g)
              (rw e (at_middle pre m ms))
            ∙ ap (λ roots. split_round h roots t (i + 1) ms (add b m (tail_of m) r))
                (sym (append_assoc pre (m ∷ []) ms))
            ∙ s.runs;
        exact = s.exact ∙ x;
        other = s.other ∙ y;
      }

  inexacts_all : (ms : List Match) → exacts h t ms ≡ [] → inexacts h t ms ≡ ms
  inexacts_all [] e = refl
  inexacts_all (m ∷ ms) e = elim (Bool-cases (exact_first h t m)) [
    | inl b ↦ absurd (cons-ne-nil (rw b at e))
    | inr b ↦ rw b (ap (◌∷◌ m) (inexacts_all ms (rw b at e)))
  ]

  chosen_roots :
      (ms : List Match) (r : Round)
      → r.exact_roots ≡ exacts h t ms
      → r.non_exact_roots ≡ inexacts h t ms
      → (chosen r).0 ≡ prefer_exact (exacts h t ms) ms
  chosen_roots ms r x y = rw (x, y) (pick (exacts h t ms) refl)
    where
      pick :
          (es : List Match)
          → exacts h t ms ≡ es
          → (chosen (record r { exact_roots = es; non_exact_roots = inexacts h t ms })).0
            ≡ prefer_exact es ms
      pick [] e = inexacts_all ms e
      pick (m ∷ es) e = refl

  last_round :
      (roots : List Match) (r : Round)
      → ◌≡◌ {A = Result Failure (List Match)}
          (elim (leb (length (chosen r).0) 1) [
            | true ↦ ok (chosen r).0
            | false ↦ rounds h roots [] (chosen r).1 (chosen r).0
          ])
          (ok (chosen r).0)
  unfolding rounds
  last_round roots r = elim (Bool-cases (leb (length (chosen r).0) 1)) [
    | inl b ↦ rw b
    | inr b ↦ rw b
  ]

  several :
      (ms : List Match)
      → All (Loaded h) ms
      → rounds h ms (t ∷ []) ms [] ≡ ok (prefer_exact (exacts h t ms) ms)
  several ms g =
      let s = split_first [] ms 0 no_round refl g in
      rounds_cons h t ms [] ms [] s.runs
      ∙ last_round ms s.round
      ∙ ap ok (chosen_roots ms s.round s.exact s.other)

  -- For one token the exact matches are returned, and all matches where none is exact.
  pub disambiguate_one :
      (ms : List Match)
      → All (Loaded h) ms
      → disambiguate h (t ∷ []) ms ≡ ok (prefer_exact (exacts h t ms) ms)
  unfolding disambiguate
  disambiguate_one [] g = refl
  disambiguate_one (m ∷ []) g = elim (Bool-cases (exact_first h t m)) [
    | inl b ↦ rw b
    | inr b ↦ rw b
  ]
  disambiguate_one (m ∷ m2 ∷ ms) g = several (m ∷ m2 ∷ ms) g
