-- ===== src/Commands/Disambiguate/Returns.antt =====
-- chatterc/commands/commands.go, `Match`: the disambiguation of matches of the line's length returns.
use chatter.Base.{
  ℕ, zero, suc, ◌+◌, ◌≤◌, ◌<◌, Bool, true, false, List, [], ◌∷◌, leb, Str, length, length-append,
  All, all_nil, all_cons, All-append, At, ◌≡◌, refl, subst, inl, inr, Bool-cases, arith,
}
use chatter.Base.Result.{ok}
use chatter.Commands.Node.{Node, Heap, load}
use chatter.Commands.Matching.{Link, Match}
use chatter.Commands.Disambiguate.{
  Round, no_round, is_exact, at, add, split_round, prefer, chosen, rounds, disambiguate,
}
use chatter.Commands.Disambiguate.Rounds.{disambiguate-All}

-- A match of k nodes of the heap at least.
pub data Long (h : Heap) : ℕ → Match → Type 0 where
  long_end : {m : Match} → Long h 0 m
  long_link :
      {k : ℕ} {l : Link} {m : Match} {n : Node}
      → load h l.node ≡ ok n
      → Long h k m
      → Long h (suc k) (l ∷ m)

-- What a round has kept: this many matches in all, each of k nodes at least.
record Kept (h : Heap) (k total : ℕ) (r : Round) : Type 0 where
  exact : All (Long h k) r.exact_matches
  other : All (Long h k) r.non_exact_matches
  counts : length r.exact_matches + length r.non_exact_matches ≡ total

Kept-add :
    {h : Heap} {k total : ℕ} (b : Bool) (root : Match) {next : Match} {r : Round}
    → Long h k next
    → Kept h k total r
    → Kept h k (suc total) (add b root next r)
Kept-add true root {next} {r} l g =
    let e = g.counts in
    let f = length-append r.exact_matches (next ∷ []) in
    record {
      exact = All-append g.exact (all_cons l all_nil);
      other = g.other;
      counts = omega (arith, e, f);
    }
Kept-add false root {next} {r} l g =
    let e = g.counts in
    let f = length-append r.non_exact_matches (next ∷ []) in
    record {
      exact = g.exact;
      other = All-append g.other (all_cons l all_nil);
      counts = omega (arith, e, f);
    }

at-ok : (roots : List Match) (i : ℕ) → i < length roots → (m : Match) × (at roots i ≡ ok m)
at-ok [] i l = absurd (omega arith)
at-ok (m ∷ roots) zero l = (m, refl)
at-ok (m ∷ roots) (suc i) l = at-ok roots i (omega arith)

split_round-ok :
    (h : Heap) (roots : List Match) (t : Str) (k i total : ℕ) {ms : List Match} (r : Round)
    → All (Long h (suc k)) ms
    → i + length ms ≤ length roots
    → Kept h k total r
    → (r' : Round) × (split_round h roots t i ms r ≡ ok r') × Kept h k (total + length ms) r'
unfolding split_round
split_round-ok h roots t k i total r all_nil l g =
    (r, refl, subst (λ n. Kept h k n r) (omega arith) g)
split_round-ok h roots t k i total r (all_cons {xs = ms} (long_link {m} {n} e w) a) l g =
    let (root, f) = at-ok roots i (omega arith) in
    let (r', q, g') =
      split_round-ok h roots t k (i + 1) (suc total) (add (is_exact n t) root m r) a (omega arith)
        (Kept-add (is_exact n t) root w g) in
    (r', rw (e, f, split_round) q, subst (λ n. Kept h k n r') (omega arith) g')

chosen-Kept :
    {h : Heap} {k total : ℕ} (e m n o : List Match)
    → All (Long h k) m
    → All (Long h k) o
    → length m + length o ≤ total
    → All (Long h k) (prefer e m n o).1 × (length (prefer e m n o).1 ≤ total)
chosen-Kept [] m n o a b l = (b, omega arith)
chosen-Kept (x ∷ e) m n o a b l = (a, omega arith)

rounds-ok :
    (h : Heap) (roots : List Match) (ts : List Str) (ms d : List Match)
    → All (Long h (length ts)) ms
    → length ms ≤ length roots
    → (out : List Match) × (rounds h roots ts ms d ≡ ok out)
unfolding rounds
rounds-ok h roots [] ms d a l = (d, refl)
rounds-ok h roots (t ∷ ts) ms d a l =
    let g0 : Kept h (length ts) 0 no_round = record {
      exact = all_nil;
      other = all_nil;
      counts = refl;
    } in
    let (r, q, g) = split_round-ok h roots t (length ts) 0 0 no_round a (omega arith) g0 in
    let c = g.counts in
    let (x, y) =
      chosen-Kept {total = length roots} r.exact_roots r.exact_matches r.non_exact_roots
        r.non_exact_matches g.exact g.other (omega (arith, c)) in
    elim (Bool-cases (leb (length (chosen r).0) 1)) [
      | inl b ↦ ((chosen r).0, rw (q, b, rounds) refl)
      | inr b ↦
          let (out, p) = rounds-ok h roots ts (chosen r).1 (chosen r).0 x y in
          (out, rw (q, b, rounds) p)
    ]

-- On matches that have a node of the heap for each token of the line, the disambiguation returns, and
-- what it returns is among them.
pub disambiguate-returns :
    (h : Heap) (ts : List Str) (ms : List Match)
    → All (Long h (length ts)) ms
    → (out : List Match) × (disambiguate h ts ms ≡ ok out) × All (λ m. At m ms) out
unfolding disambiguate
disambiguate-returns h ts [] a = ([], refl, disambiguate-All h ts [] refl)
disambiguate-returns h ts (m ∷ []) a = (m ∷ [], refl, disambiguate-All h ts (m ∷ []) refl)
disambiguate-returns h ts (m ∷ m2 ∷ ms) a =
    let (out, q) = rounds-ok h (m ∷ m2 ∷ ms) ts (m ∷ m2 ∷ ms) [] a (omega arith) in
    (out, q, disambiguate-All h ts (m ∷ m2 ∷ ms) q)
