-- ===== src/Commands/Disambiguate/Rounds.antt =====
-- What a round of the disambiguation keeps.
use chatter.Base.{
  ℕ, zero, suc, ◌+◌, Bool, true, false, List, [], ◌∷◌, ◌≡◌, sym, subst, inl, inr, Str, At, head,
  tail, All, all_nil, all_cons, All-append, length, leb, Bool-cases,
}
use chatter.Base.Result.{ok, >>=-eq-ok, ok-injective, ok-ne-err, Result-cases}
use chatter.Commands.Node.{Heap, load}
use chatter.Commands.Matching.{Match}
use chatter.Commands.Disambiguate.{
  Round, no_round, is_exact, at, add, split_round, chosen, rounds, disambiguate,
}

at-At : (roots : List Match) (i : ℕ) {m : Match} → at roots i ≡ ok m → At m roots
at-At [] i e = cc
at-At (x ∷ roots) zero e = subst (λ m. At m (x ∷ roots)) (ok-injective e) head
at-At (x ∷ roots) (suc i) e = tail (at-At roots i e)

module _ (h : Heap) (roots : List Match) where
  -- All roots of the round are among the matches.
  record FromRoots (r : Round) : Type 0 where
    exact : All (λ m. At m roots) r.exact_roots
    other : All (λ m. At m roots) r.non_exact_roots

  add-FromRoots :
      (b : Bool) {root : Match} (next : Match) {r : Round}
      → At root roots
      → FromRoots r
      → FromRoots (add b root next r)
  add-FromRoots true next i g = record {
    exact = All-append g.exact (all_cons i all_nil);
    other = g.other;
  }
  add-FromRoots false next i g = record {
    exact = g.exact;
    other = All-append g.other (all_cons i all_nil);
  }

  split_round-FromRoots :
      (t : Str) (i : ℕ) (ms : List Match) (r : Round) {r' : Round}
      → FromRoots r
      → split_round h roots t i ms r ≡ ok r'
      → FromRoots r'
  unfolding split_round
  split_round-FromRoots t i [] r g e = subst FromRoots (ok-injective e) g
  split_round-FromRoots t i ([] ∷ ms) r g e = cc
  split_round-FromRoots t i ((m ∷ next) ∷ ms) r g e =
      let (n, a, e2) = >>=-eq-ok (load h m.node) _ e in
      let (root, b, e3) = >>=-eq-ok (at roots i) _ e2 in
      split_round-FromRoots t (i + 1) ms (add (is_exact n t) root next r)
        (add-FromRoots (is_exact n t) next (at-At roots i b) g) e3

  chosen-All : (r : Round) → FromRoots r → All (λ m. At m roots) (chosen r).0
  chosen-All r g = pick r.exact_roots g.exact
    where
      pick :
          (xs : List Match)
          → All (λ m. At m roots) xs
          → All (λ m. At m roots) (chosen (record r { exact_roots = xs })).0
      pick [] x = g.other
      pick (x ∷ xs) y = y

  rounds-All :
      (ts : List Str) (ms d : List Match) {out : List Match}
      → All (λ m. At m roots) d
      → rounds h roots ts ms d ≡ ok out
      → All (λ m. At m roots) out
  unfolding rounds
  rounds-All [] ms d g e = subst (All (λ m. At m roots)) (ok-injective e) g
  rounds-All (t ∷ ts) ms d g e = elim (Result-cases (split_round h roots t 0 ms no_round)) [
    | inl (r, a) ↦
        let kept =
          chosen-All r (
            split_round-FromRoots t 0 ms no_round (record { exact = all_nil; other = all_nil })
              a) in
        elim (Bool-cases (leb (length (chosen r).0) 1)) [
          | inl b ↦ subst (All (λ m. At m roots)) (ok-injective (rw (a, rounds, b) at e)) kept
          | inr b ↦ rounds-All ts (chosen r).1 (chosen r).0 kept (rw (a, rounds, b) at e)
        ]
    | inr (x, a) ↦ absurd (ok-ne-err (sym (rw (a, rounds) at e)))
  ]

-- The disambiguated matches are among the matches.
pub disambiguate-All :
    (h : Heap) (ts : List Str) (ms : List Match) {out : List Match}
    → disambiguate h ts ms ≡ ok out
    → All (λ m. At m ms) out
unfolding disambiguate
disambiguate-All h ts [] e = subst (All (λ m. At m [])) (ok-injective e) all_nil
disambiguate-All h ts (m ∷ []) e =
    subst (All (λ x. At x (m ∷ []))) (ok-injective e) (all_cons head all_nil)
disambiguate-All h ts (m ∷ m2 ∷ ms) e = rounds-All h (m ∷ m2 ∷ ms) ts (m ∷ m2 ∷ ms) [] all_nil e
