-- ===== src/Commands/Matching/Complete.antt =====
-- Every path that takes the tokens is among the matches that `matchTokens` returns.
use chatter.Base.{
  ℕ, zero, suc, Bool, true, false, List, [], ◌∷◌, ◌++◌, Option, ◌≡◌, refl, sym, ap, subst, ◌∙◌, ◌⊎◌,
  inl, inr, Str, At, head, tail, At-append_left, At-append_right, Bool-cases, if◌then◌else◌,
}
use chatter.Base.Result.{Result, ok, >>=-eq-ok, ok-injective, ok-ne-err}
use chatter.Commands.Node.{Failure, Ptr, Node, Heap}
use chatter.Commands.Matching.{
  Addr, Value, Match, choice_args, set_args, choice_matches, link, prepend, next_complete,
  children_matches, follow, match_tokens,
}
use chatter.Commands.Matching.Paths.{
  nodes, Accepts-accept, PathOf, through, last, more, step_choice, step_last, step_more, step_fuel,
}

module _ (parse_addr : Str → Option Addr) (h : Heap) where
  -- One of the matches has these nodes and this mark of completeness.
  pub record Found (ps : List Ptr) (done : Bool) (ms : List Match) : Type 0 where
    pub found : Match
    pub is_in : At found ms
    pub visits : nodes found ≡ ps
    pub marked : next_complete parse_addr found ≡ done

  Found-map :
      {ps ps' : List Ptr} {done done' : Bool} {ms ms' : List Match} (f : Match → Match)
      → ((m : Match) → At m ms → At (f m) ms')
      → ((m : Match) → nodes m ≡ ps → nodes (f m) ≡ ps')
      → ((m : Match) → next_complete parse_addr m ≡ done → next_complete parse_addr (f m) ≡ done')
      → Found ps done ms
      → Found ps' done' ms'
  Found-map f a v k g = record {
    found = f g.found;
    is_in = a g.found g.is_in;
    visits = v g.found g.visits;
    marked = k g.found g.marked;
  }

  Found-append_left :
      {ps : List Ptr} {done : Bool} {xs : List Match} (ys : List Match)
      → Found ps done xs
      → Found ps done (xs ++ ys)
  Found-append_left ys = Found-map (λ m. m) (λ m. At-append_left ys) (λ m v. v) (λ m v. v)

  Found-append_right :
      {ps : List Ptr} {done : Bool} (xs : List Match) {ys : List Match}
      → Found ps done ys
      → Found ps done (xs ++ ys)
  Found-append_right xs = Found-map (λ m. m) (λ m. At-append_right xs) (λ m v. v) (λ m v. v)

  -- The match after `set_args` has the same nodes and mark.
  record SameView (m m' : Match) : Type 0 where
    visits : nodes m' ≡ nodes m
    marked : next_complete parse_addr m' ≡ next_complete parse_addr m

  set_args-SameView :
      (cs : List Ptr) (m : Match) {m' : Match} → set_args h cs m ≡ ok m' → SameView m m'
  set_args-SameView cs [] e = cc
  set_args-SameView cs (l ∷ m) e =
      let (args, a, q) = >>=-eq-ok (choice_args h l cs []) _ e in
      subst (SameView (l ∷ m)) (ok-injective q) (record { visits = refl; marked = refl })

  one-SameView :
      (n : Node) (m : Match) {m' : Match}
      → (n.explicit_choice ≡ true) ⊎ (n.explicit_choice ≡ false)
      → (if n.explicit_choice then set_args h n.children m else ok m) ≡ ok m'
      → SameView m m'
  one-SameView n m (inl x) a = set_args-SameView n.children m (rw x at a)
  one-SameView n m (inr x) a =
      subst (SameView m) (ok-injective (rw x at a)) (record { visits = refl; marked = refl })

  choice_matches-At :
      (n : Node) {m : Match} {ms ms' : List Match}
      → At m ms
      → choice_matches h n ms ≡ ok ms'
      → (m' : Match) × At m' ms' × SameView m m'
  unfolding choice_matches
  choice_matches-At n {m} (head {xs}) e =
      let (m', a, e2) =
        >>=-eq-ok (if n.explicit_choice then set_args h n.children m else ok m) _ e in
      let (ms', b, q) = >>=-eq-ok (choice_matches h n xs) _ e2 in
      (m', subst (At m') (ok-injective q) head, one-SameView n m (Bool-cases n.explicit_choice) a)
  choice_matches-At n {m} (tail {x} {xs} i) e =
      let (m', a, e2) =
        >>=-eq-ok (if n.explicit_choice then set_args h n.children x else ok x) _ e in
      let (ms', b, q) = >>=-eq-ok (choice_matches h n xs) _ e2 in
      let (m2, j, v) = choice_matches-At n i b in (m2, subst (At m2) (ok-injective q) (tail j), v)

  choice_matches-Found :
      (n : Node) {ps : List Ptr} {done : Bool} {ms ms' : List Match}
      → choice_matches h n ms ≡ ok ms'
      → Found ps done ms
      → Found ps done ms'
  choice_matches-Found n e g =
      let (m', i, v) = choice_matches-At n g.is_in e in
      record { found = m'; is_in = i; visits = v.visits ∙ g.visits; marked = v.marked ∙ g.marked }

  children_matches-Found :
      (n : Node) (rec : Ptr → Result Failure (List Match)) {c : Ptr} {cs : List Ptr} {ps : List Ptr}
      {done : Bool} {ms : List Match}
      → At c cs
      → ((ms : List Match) → rec c ≡ ok ms → Found ps done ms)
      → children_matches parse_addr h n rec cs ≡ ok ms
      → Found ps done ms
  unfolding children_matches
  children_matches-Found n rec {c} {ps} {done} (head {xs}) g e =
      let (ms, a, e2) = >>=-eq-ok (rec c) _ e in
      let (ms', b, e3) = >>=-eq-ok (choice_matches h n ms) _ e2 in
      let (rest, d, q) = >>=-eq-ok (children_matches parse_addr h n rec xs) _ e3 in
      subst (Found ps done) (ok-injective q)
        (Found-append_left rest (choice_matches-Found n b (g ms a)))
  children_matches-Found n rec {c} {ps} {done} (tail {x} {xs} i) g e =
      let (ms, a, e2) = >>=-eq-ok (rec x) _ e in
      let (ms', b, e3) = >>=-eq-ok (choice_matches h n ms) _ e2 in
      let (rest, d, q) = >>=-eq-ok (children_matches parse_addr h n rec xs) _ e3 in
      subst (Found ps done) (ok-injective q)
        (Found-append_right ms' (children_matches-Found n rec i g d))

  prepend-At :
      (p : Ptr) (t : Str) (args : List Value) {m : Match} {ms : List Match}
      → At m ms
      → At
          (link parse_addr p t args (next_complete parse_addr m) ∷ m)
          (prepend parse_addr p t args ms)
  prepend-At p t args head = head
  prepend-At p t args (tail i) = tail (prepend-At p t args i)

  follow-Found :
      (p : Ptr) (t : Str) (args : List Value) (rec : Ptr → Result Failure (List Match)) (c : Ptr)
      {ps : List Ptr} {done : Bool} {ms : List Match}
      → ((ms : List Match) → rec c ≡ ok ms → Found ps done ms)
      → follow parse_addr p t args rec (c ∷ []) ≡ ok ms
      → Found (p ∷ ps) done ms
  unfolding follow
  follow-Found p t args rec c {ps} {done} g e =
      let (ms, a, q) = >>=-eq-ok (rec c) _ e in
      subst (Found (p ∷ ps) done) (ok-injective q) (
        Found-map (λ m. link parse_addr p t args (next_complete parse_addr m) ∷ m)
          (λ m. prepend-At p t args) (λ m v. ap (◌∷◌ p) v) (λ m v. v) (g ms a))

  -- Every path that takes the tokens is among the matches that the search returns.
  pub PathOf-Found :
      (f : ℕ) {p : Ptr} {ts : List Str} {ps : List Ptr} {done : Bool} {ms : List Match}
      → PathOf parse_addr h p ts ps done
      → match_tokens parse_addr f h p ts ≡ ok ms
      → Found ps done ms
  PathOf-Found zero {p} {ts} w e = absurd (ok-ne-err (sym e ∙ step_fuel parse_addr h p ts))
  PathOf-Found (suc f) {p} {ts} (through {n = n} l ch i w) e =
      children_matches-Found n _ i (λ ms. PathOf-Found f w)
        (sym (step_choice parse_addr f h p l ts ch) ∙ e)
  PathOf-Found (suc f) {p} {ps} {done} (last {n = n} {t = t} l a) e =
      let (nc, (args, b)) = Accepts-accept parse_addr n t a in
      subst (Found ps done) (ok-injective (sym (step_last parse_addr f h p l t nc b) ∙ e))
        (record { found = _; is_in = head; visits = refl; marked = refl })
  PathOf-Found (suc f) {p} (more {c = c} {n = n} {t = t} {t2 = t2} {ts = ts} l a o w) e =
      let (nc, (args, b)) = Accepts-accept parse_addr n t a in
      follow-Found p t args _ c (λ ms. PathOf-Found f w)
        (rw o at (sym (step_more parse_addr f h p l t t2 ts nc b) ∙ e))
