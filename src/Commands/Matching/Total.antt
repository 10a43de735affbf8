-- ===== src/Commands/Matching/Total.antt =====
-- chatterc/commands/commands.go, `matchTokens`: it returns on every graph of bounded height in
-- which no option of a choice is a choice, which leaves out declarations such as "<a|<b|c>>".
use chatter.Base.{
  ℕ, zero, suc, Bool, true, false, List, [], ◌∷◌, ◌++◌, Option, none, some, if◌then◌else◌, Str, All,
  all_nil, all_cons, ◌≡◌, refl, sym, ◌∙◌, inl, inr, ◌⊎◌, Bool-cases, Option-cases, some-injective,
  some-ne-none, At, head, tail, arith,
}
use chatter.Base.Result.{Result, ok, ok-injective}
use chatter.Commands.Node.{
  NodeType, literal, param_string, param_ipv4, param_ipv6, choice, Failure, Ptr, Node, Heap, load,
  node_type_eq,
}
use chatter.Commands.Matching.{
  Addr, Value, addr_value, Match, is_literal, accept, accept_as, family, prepend, children_matches,
  follow, match_tokens,
}
use chatter.Commands.Matching.Sound.{IsMatch, match_tokens-IsMatch}
use chatter.Commands.Matching.Paths.{step_choice, step_reject, step_last, step_more}
use chatter.Commands.Matching.Arguments.{Atom, atom, Supplied, supplied, choice_matches-ok}

-- The graph below a node, of bounded height: a node that is no choice has at most one child, and the
-- options of a choice are no choices. The parser accepts a choice as an option of a choice, and its
-- graph is not of this form.
pub data Graph (h : Heap) : ℕ → Ptr → Type 0 where
  leaf :
      {k : ℕ} {p : Ptr} {n : Node}
      → load h p ≡ ok n
      → node_type_eq n.t choice ≡ false
      → n.children ≡ []
      → Graph h (suc k) p
  chain :
      {k : ℕ} {p c : Ptr} {n : Node}
      → load h p ≡ ok n
      → node_type_eq n.t choice ≡ false
      → n.children ≡ c ∷ []
      → Graph h k c
      → Graph h (suc k) p
  fork :
      {k : ℕ} {p : Ptr} {n : Node}
      → load h p ≡ ok n
      → node_type_eq n.t choice ≡ true
      → All (Atom h) n.children
      → ((c : Ptr) → At c n.children → Graph h k c)
      → Graph h (suc k) p

module _ (parse_addr : Str → Option Addr) (h : Heap) where
  -- A node that is no choice takes a token with an argument, unless it is a literal.
  family-supplies :
      (test : Addr → Bool) (o : Option Addr) {args : List Value}
      → family parse_addr test o ≡ some args
      → (v : Value) × (vs : List Value) × (args ≡ v ∷ vs)
  family-supplies test none e = absurd (grind (arith, e))
  family-supplies test (some a) {args} e =
      let f : (if test a then some (addr_value a ∷ []) else none) ≡ some args = e in
      elim (Bool-cases (test a)) [
        | inl y ↦ (addr_value a, [], sym (some-injective (rw y at f)))
        | inr z ↦ absurd (some-ne-none (sym (rw z at f)))
      ]

  accept_as-supplies :
      (t : NodeType) (value token : Str) {args : List Value}
      → accept_as parse_addr t value token ≡ some args
      → (is_literal t ≡ true) ⊎ ((v : Value) × (vs : List Value) × (args ≡ v ∷ vs))
  accept_as-supplies literal value token e = inl refl
  accept_as-supplies param_string value token e = inr (_, _, sym (some-injective e))
  accept_as-supplies param_ipv4 value token e = inr (family-supplies _ (parse_addr token) e)
  accept_as-supplies param_ipv6 value token e = inr (family-supplies _ (parse_addr token) e)
  accept_as-supplies choice value token e = absurd (grind (arith, e))

  IsFork : Ptr → Type 0
  IsFork p = (n : Node) × (load h p ≡ ok n) × (node_type_eq n.t choice ≡ true)

  -- The search at p returns, and at a node that is no choice its matches have their arguments.
  Ends : Ptr → Result Failure (List Match) → Type 0
  Ends p r = (ms : List Match) × (r ≡ ok ms) × (IsFork p ⊎ All (Supplied h) ms)

  options-ok :
      (n : Node) (rec : Ptr → Result Failure (List Match)) (cs : List Ptr)
      → All (Atom h) n.children
      → All (Atom h) cs
      → ((c : Ptr) → At c cs → Ends c (rec c))
      → (ms : List Match) × (children_matches parse_addr h n rec cs ≡ ok ms)
  unfolding children_matches Ends IsFork
  options-ok n rec [] a all_nil g = ([], refl)
  options-ok n rec (c ∷ cs) a (all_cons (atom e x) b) g =
      let (ms, q, w) = g c head in
      let (out, r) = options-ok n rec cs a b (λ d i. g d (tail i)) in
      elim w [
        | inl (n2, e2, x2) ↦
            let k = ok-injective (sym e ∙ e2) in
            let x3 : node_type_eq n2.t choice ≡ false = rw (sym k) x in
            absurd (grind (arith, x2, x3))
        | inr s ↦ let (ms', m) = choice_matches-ok h n a s in (ms' ++ out, rw (q, m, r) refl)
      ]

  prepend-Supplied :
      (p : Ptr) (t : Str) (args : List Value) {n : Node} (ms : List Match)
      → load h p ≡ ok n
      → (is_literal n.t ≡ true) ⊎ ((v : Value) × (vs : List Value) × (args ≡ v ∷ vs))
      → All (Supplied h) (prepend parse_addr p t args ms)
  prepend-Supplied p t args [] e g = all_nil
  prepend-Supplied p t args (m ∷ ms) e g =
      all_cons (supplied e g) (prepend-Supplied p t args ms e g)

  match_tokens-Ends :
      (k : ℕ) (p : Ptr) (t : Str) (ts : List Str)
      → Graph h k p
      → Ends p (match_tokens parse_addr k h p (t ∷ ts))
  unfolding Ends IsFork follow accept
  match_tokens-Ends zero p t ts g = elim g [ ]
  match_tokens-Ends (suc k) p t ts (fork {n} e x a g) =
      let (ms, q) =
        options-ok n (λ c. match_tokens parse_addr k h c (t ∷ ts)) n.children a a
          (λ c i. match_tokens-Ends k c t ts (g c i)) in
      (ms, step_choice parse_addr k h p e (t ∷ ts) x ∙ q, inl (n, e, x))
  match_tokens-Ends (suc k) p t [] (leaf {n} e x c) = elim (Option-cases (accept parse_addr n t)) [
    | inl r ↦ ([], step_reject parse_addr k h p e t [] x r, inr all_nil)
    | inr (args, r) ↦ (
      _,
      step_last parse_addr k h p e t x r,
      inr (all_cons (supplied e (accept_as-supplies n.t n.value t r)) all_nil),
    )
  ]
  match_tokens-Ends (suc k) p t (t2 ∷ ts) (leaf {n} e x c) =
      elim (Option-cases (accept parse_addr n t)) [
        | inl r ↦ ([], step_reject parse_addr k h p e t (t2 ∷ ts) x r, inr all_nil)
        | inr (args, r) ↦ ([], step_more parse_addr k h p e t t2 ts x r ∙ rw c refl, inr all_nil)
      ]
  match_tokens-Ends (suc k) p t [] (chain {n} e x c g) =
      elim (Option-cases (accept parse_addr n t)) [
        | inl r ↦ ([], step_reject parse_addr k h p e t [] x r, inr all_nil)
        | inr (args, r) ↦ (
          _,
          step_last parse_addr k h p e t x r,
          inr (all_cons (supplied e (accept_as-supplies n.t n.value t r)) all_nil),
        )
      ]
  match_tokens-Ends (suc k) p t (t2 ∷ ts) (chain {c} {n} e x o g) =
      elim (Option-cases (accept parse_addr n t)) [
        | inl r ↦ ([], step_reject parse_addr k h p e t (t2 ∷ ts) x r, inr all_nil)
        | inr (args, r) ↦
            let (ms, q, w) = match_tokens-Ends k c t2 ts g in
            (
              prepend parse_addr p t args ms,
              step_more parse_addr k h p e t t2 ts x r ∙ rw (o, follow, q) refl,
              inr (prepend-Supplied p t args ms e (accept_as-supplies n.t n.value t r)),
            )
      ]

  -- On a graph of bounded height whose nodes have at most one child if they are no choice, and no
  -- choice as an option if they are one, matchTokens returns on every list of tokens that is not empty,
  -- without a panic, and with the height as fuel; what it returns are paths that take the tokens.
  pub match_tokens-returns :
      (k : ℕ) (p : Ptr) (t : Str) (ts : List Str)
      → Graph h k p
      → (ms : List Match) × (match_tokens parse_addr k h p (t ∷ ts) ≡ ok ms)
        × All (IsMatch parse_addr h p (t ∷ ts)) ms
  unfolding Ends
  match_tokens-returns k p t ts g =
      let (ms, q, w) = match_tokens-Ends k p t ts g in
      (ms, q, match_tokens-IsMatch parse_addr h k p (t ∷ ts) ms q)
