-- ===== src/Commands/Matching/Paths.antt =====
-- `matchTokens` against paths in the command graph: what a match is, without the search.
use chatter.Base.{
  ℕ, zero, suc, Bool, true, false, List, [], ◌∷◌, ◌++◌, Option, none, some, ◌≡◌, refl, inl, inr,
  Str, has_prefix, has_prefix_sound, has_prefix_append, At, Bool-cases,
}
use mathlib.Core.Option.{none-ne-some}
use chatter.Base.Result.{ok, err}
use chatter.Commands.Node.{
  NodeType, literal, param_string, param_ipv4, param_ipv6, choice, node_type_eq, Failure, panic,
  out_of_fuel, Ptr, Node, Heap, load, is_some,
}
use chatter.Commands.Matching.{
  Addr, ipv4, ipv6, Match, accept, accept_as, family, is_4, is_6, no_addr, Value, string_value,
  addr_value, link, children_matches, follow, match_tokens,
}

abbrev pub nodes : Match → List Ptr
nodes [] = []
nodes (l ∷ m) = l.node ∷ nodes m

abbrev pub inputs : Match → List Str
inputs [] = []
inputs (l ∷ m) = l.input ∷ inputs m

module _ (parse_addr : Str → Option Addr) where
  -- A node takes a token: a literal of which it is a prefix, any string, an address of the family.
  pub data Accepts (n : Node) (token : Str) : Type 0 where
    abbreviates : (rest : Str) → n.t ≡ literal → n.value ≡ token ++ rest → Accepts n token
    any_string : n.t ≡ param_string → Accepts n token
    is_ipv4 : (a : ℕ) → n.t ≡ param_ipv4 → parse_addr token ≡ some (ipv4 a) → Accepts n token
    is_ipv6 :
        (a : ℕ) (zone : Str)
        → n.t ≡ param_ipv6
        → parse_addr token ≡ some (ipv6 a zone)
        → Accepts n token

  -- The nodes `ps` lie on a path from `p` that takes the tokens one by one, past choices; the flag
  -- says whether the last of them has a handler.
  pub data PathOf (h : Heap) : Ptr → List Str → List Ptr → Bool → Type 0 where
    through :
        {p c : Ptr} {n : Node} {ts : List Str} {ps : List Ptr} {done : Bool}
        → load h p ≡ ok n
        → node_type_eq n.t choice ≡ true
        → At c n.children
        → PathOf h c ts ps done
        → PathOf h p ts ps done
    last :
        {p : Ptr} {n : Node} {t : Str}
        → load h p ≡ ok n
        → Accepts n t
        → PathOf h p (t ∷ []) (p ∷ []) (is_some n.handler_func)
    more :
        {p c : Ptr} {n : Node} {t t2 : Str} {ts : List Str} {ps : List Ptr} {done : Bool}
        → load h p ≡ ok n
        → Accepts n t
        → n.children ≡ c ∷ []
        → PathOf h c (t2 ∷ ts) ps done
        → PathOf h p (t ∷ t2 ∷ ts) (p ∷ ps) done

  family-ipv4 :
      (o : Option Addr) {args : List Value}
      → family parse_addr is_4 o ≡ some args
      → (a : ℕ) × (o ≡ some (ipv4 a))
  family-ipv4 none e = cc
  family-ipv4 (some no_addr) e = cc
  family-ipv4 (some (ipv4 a)) e = (a, refl)
  family-ipv4 (some (ipv6 a z)) e = cc

  family-ipv6 :
      (o : Option Addr) {args : List Value}
      → family parse_addr is_6 o ≡ some args
      → (a : ℕ) × (zone : Str) × (o ≡ some (ipv6 a zone))
  family-ipv6 none e = cc
  family-ipv6 (some no_addr) e = cc
  family-ipv6 (some (ipv4 a)) e = cc
  family-ipv6 (some (ipv6 a z)) e = (a, z, refl)

  accept_as-Accepts :
      (n : Node) (t : Str) (ty : NodeType) {args : List Value}
      → n.t ≡ ty
      → accept_as parse_addr ty n.value t ≡ some args
      → Accepts n t
  accept_as-Accepts n t literal e a = elim (Bool-cases (has_prefix t n.value)) [
    | inl p ↦ let (rest, q) = has_prefix_sound t n.value p in abbreviates rest e q
    | inr p ↦ absurd (none-ne-some _ (rw p at a))
  ]
  accept_as-Accepts n t param_string e a = any_string e
  accept_as-Accepts n t param_ipv4 e a = let (i, q) = family-ipv4 (parse_addr t) a in is_ipv4 i e q
  accept_as-Accepts n t param_ipv6 e a =
      let (i, z, q) = family-ipv6 (parse_addr t) a in is_ipv6 i z e q
  accept_as-Accepts n t choice e a = absurd (none-ne-some _ a)

  pub accept-Accepts :
      (n : Node) (t : Str) {args : List Value} → accept parse_addr n t ≡ some args → Accepts n t
  unfolding accept
  accept-Accepts n t a = accept_as-Accepts n t n.t refl a

  pub Accepts-accept :
      (n : Node) (t : Str)
      → Accepts n t
      → (node_type_eq n.t choice ≡ false)
        × ((args : List Value) × (accept parse_addr n t ≡ some args))
  unfolding accept
  Accepts-accept n t (abbreviates rest e v) =
      (rw e, ([], rw (e, accept, v) (rw (has_prefix_append t rest))))
  Accepts-accept n t (any_string e) = (rw e, (string_value t ∷ [], rw (e, accept)))
  Accepts-accept n t (is_ipv4 a e q) = (rw e, (addr_value (ipv4 a) ∷ [], rw (e, accept, q)))
  Accepts-accept n t (is_ipv6 a z e q) = (rw e, (addr_value (ipv6 a z) ∷ [], rw (e, accept, q)))

  -- One step of the search, on each of its branches.
  module _ (f : ℕ) (h : Heap) (p : Ptr) {n : Node} (loaded : load h p ≡ ok n) where
    pub step_choice :
        (ts : List Str)
        → node_type_eq n.t choice ≡ true
        → match_tokens parse_addr (suc f) h p ts
          ≡ children_matches parse_addr h n (λ c. match_tokens parse_addr f h c ts) n.children
    unfolding match_tokens
    step_choice ts e = rw (loaded, match_tokens, e)

    pub step_reject :
        (t : Str) (ts : List Str)
        → node_type_eq n.t choice ≡ false
        → accept parse_addr n t ≡ none
        → match_tokens parse_addr (suc f) h p (t ∷ ts) ≡ ok []
    unfolding match_tokens
    step_reject t ts e a = rw (loaded, match_tokens, e, a)

    pub step_last :
        (t : Str) {args : List Value}
        → node_type_eq n.t choice ≡ false
        → accept parse_addr n t ≡ some args
        → match_tokens parse_addr (suc f) h p (t ∷ [])
          ≡ ok ((link parse_addr p t args (is_some n.handler_func) ∷ []) ∷ [])
    unfolding match_tokens
    step_last t e a = rw (loaded, match_tokens, e, a)

    pub step_more :
        (t t2 : Str) (ts : List Str) {args : List Value}
        → node_type_eq n.t choice ≡ false
        → accept parse_addr n t ≡ some args
        → match_tokens parse_addr (suc f) h p (t ∷ t2 ∷ ts)
          ≡ follow parse_addr p t args (λ c. match_tokens parse_addr f h c (t2 ∷ ts)) n.children
    unfolding match_tokens
    step_more t t2 ts e a = rw (loaded, match_tokens, e, a)

    pub step_none :
        node_type_eq n.t choice ≡ false → match_tokens parse_addr (suc f) h p [] ≡ err panic
    unfolding match_tokens
    step_none e = rw (loaded, match_tokens, e)

  pub step_fuel :
      (h : Heap) (p : Ptr) (ts : List Str) → match_tokens parse_addr zero h p ts ≡ err out_of_fuel
  unfolding match_tokens
  step_fuel h p ts = refl

  pub step_fault :
      (f : ℕ) (h : Heap) (p : Ptr) (ts : List Str) {e : Failure}
      → load h p ≡ err e
      → match_tokens parse_addr (suc f) h p ts ≡ err e
  unfolding match_tokens
  step_fault f h p ts l = rw (l, match_tokens)
