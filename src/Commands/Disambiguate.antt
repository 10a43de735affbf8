-- ===== src/Commands/Disambiguate.antt =====
-- chatterc/commands/commands.go, `Match`: the fields of the input are matched, and of several
-- matches those with exact literals are preferred, token by token.
pub mod Rounds
pub mod Exact
pub mod Returns
pub mod Input
use chatter.Base.{
  ℕ, zero, suc, ◌+◌, Bool, true, false, ◌&&◌, List, [], ◌∷◌, ◌++◌, Option, none, some, ◌≡◌, refl,
  if◌then◌else◌, Str, str_eq, codes, leb, length, get_elem?,
}
use chatter.Base.Utf8.{fields}
use chatter.Base.Result.{Result, ok, err, ◌>>=◌}
use chatter.Commands.Node.{literal, Failure, panic, Ptr, Node, Heap, load, node_type_eq}
use chatter.Commands.Matching.{Addr, Match, Link, match_tokens}

-- The four lists of a round: `exactRoots`, `exactMatches`, `nonExactRoots`, `nonExactMatches`.
pub record Round : Type 0 where
  pub exact_roots : List Match
  pub exact_matches : List Match
  pub non_exact_roots : List Match
  pub non_exact_matches : List Match

abbrev pub no_round : Round
no_round = record {
  exact_roots = [];
  exact_matches = [];
  non_exact_roots = [];
  non_exact_matches = [];
}

-- `m.node.t == ntLiteral && m.node.value == token`
abbrev pub is_exact : Node → Str → Bool
is_exact n token = node_type_eq n.t literal && str_eq n.value token

-- `matches[i]`
abbrev pub at : List Match → ℕ → Result Failure Match
at ms i = elim (get_elem? ms i) [ none ↦ err panic | some m ↦ ok m ]

abbrev pub add : Bool → Match → Match → Round → Round
add true root next r = record r {
  exact_roots = r.exact_roots ++ root ∷ [];
  exact_matches = r.exact_matches ++ next ∷ [];
}
add false root next r = record r {
  non_exact_roots = r.non_exact_roots ++ root ∷ [];
  non_exact_matches = r.non_exact_matches ++ next ∷ [];
}

-- `for i, m := range ms`: the root of entry `i` is `matches[i]`, whatever `ms` is by now.
unfoldable pub split_round : Heap → List Match → Str → ℕ → List Match → Round → Result Failure Round
unfolding load
split_round h roots token i [] r = ok r
split_round h roots token i ([] ∷ ms) r = err panic
split_round h roots token i ((m ∷ next) ∷ ms) r = do
  n ← load h m.node
  root ← at roots i
  split_round h roots token (i + 1) ms (add (is_exact n token) root next r)

abbrev prefer : List Match → List Match → List Match → List Match → List Match × List Match
prefer [] e r s = (r, s)
prefer (x ∷ xs) e r s = (x ∷ xs, e)

-- `disambiguated, ms` behind a round.
abbrev pub chosen : Round → List Match × List Match
chosen r = prefer r.exact_roots r.exact_matches r.non_exact_roots r.non_exact_matches

-- `for _, token := range tokens`, with the value of `disambiguated` so far.
unfoldable pub rounds :
    Heap → List Match → List Str → List Match → List Match → Result Failure (List Match)
unfolding split_round
rounds h roots [] ms disambiguated = ok disambiguated
rounds h roots (token ∷ tokens) ms disambiguated = elim (split_round h roots token 0 ms no_round) [
  | err e ↦ err e
  | ok r ↦ elim (leb (length (chosen r).0) 1) [
    | true ↦ ok (chosen r).0
    | false ↦ rounds h roots tokens (chosen r).1 (chosen r).0
  ]
]

unfoldable pub disambiguate : Heap → List Str → List Match → Result Failure (List Match)
unfolding rounds
disambiguate h tokens [] = ok []
disambiguate h tokens (m ∷ []) = ok (m ∷ [])
disambiguate h tokens (m ∷ m2 ∷ ms) = rounds h (m ∷ m2 ∷ ms) tokens (m ∷ m2 ∷ ms) []

module _ (parse_addr : Str → Option Addr) where
  -- The part of `n.Match(input)` behind `strings.Fields`.
  unfoldable pub match_fields : ℕ → Heap → Ptr → List Str → Result Failure (List Match)
  unfolding match_tokens disambiguate
  match_fields fuel h p [] = ok []
  match_fields fuel h p (t ∷ ts) = do
    matches ← match_tokens parse_addr fuel h p (t ∷ ts)
    disambiguate h (t ∷ ts) matches

  unfoldable pub match_input : ℕ → Heap → Ptr → Str → Result Failure (List Match)
  unfolding match_fields fields
  match_input fuel h p input = match_fields fuel h p (fields input)
