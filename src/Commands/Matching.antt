-- ===== src/Commands/Matching.antt =====
-- chatterc/commands/commands.go, `Match` and `matchTokens`: the matches of a line of tokens.
pub mod Paths
pub mod Sound
pub mod Complete
pub mod Arguments
pub mod Total
use chatter.Base.{
  ℕ, zero, suc, ◌+◌, Bool, true, false, not, ◌&&◌, ◌||◌, List, [], ◌∷◌, ◌++◌, Option, none, some,
  ◌≡◌, refl, ◌==◌, if◌then◌else◌, Str, has_prefix, ltb, length,
}
use chatter.Base.Result.{Result, ok, err, ◌>>=◌}
use chatter.Commands.Node.{
  NodeType, literal, param_string, param_ipv4, param_ipv6, choice, GoType, string_type, addr_type,
  bool_type, go_type_eq, param_type, HandlerFunc, Failure, panic, out_of_fuel, Ptr, Node, Heap,
  load, is_some, node_type_eq,
}

-- A `netip.Addr`: the zero value, or an address of either family, a v6 one with its zone.
pub data Addr : Type 0 where
  no_addr : Addr
  ipv4 : ℕ → Addr
  ipv6 : ℕ → Str → Addr

abbrev pub is_4 : Addr → Bool
is_4 (ipv4 _) = true
is_4 _ = false

abbrev pub is_6 : Addr → Bool
is_6 (ipv6 _ _) = true
is_6 _ = false

-- A `reflect.Value` among a handler's arguments.
pub data Value : Type 0 where
  string_value : Str → Value
  addr_value : Addr → Value
  bool_value : Bool → Value

abbrev pub value_type : Value → GoType
value_type (string_value _) = string_type
value_type (addr_value _) = addr_type
value_type (bool_value _) = bool_type

-- One `Match` struct without its `next`; a `*Match` is the list of the links from it on.
pub record Link : Type 0 where
  pub node : Ptr
  pub is_complete : Bool
  pub input : Str
  pub args : List Value

abbrev pub Match : Type 0
Match = List Link

-- `containsValueOfType(values, t)`, and so for the index.
unfoldable pub contains_value_of_type : List Value → GoType → Bool
contains_value_of_type [] t = false
contains_value_of_type (v ∷ vs) t = go_type_eq (value_type v) t || contains_value_of_type vs t

-- `args[i] = v` at `i = indexOfType(args, v.Type())`, or `append(args, v)` where that is -1.
unfoldable pub put_of_type : List Value → Value → List Value
put_of_type [] v = v ∷ []
put_of_type (w ∷ vs) v =
    if go_type_eq (value_type w) (value_type v) then v ∷ vs else w ∷ put_of_type vs v

-- `reflect.Zero(t)` of a parameter's type; of the nil type, which a nested choice has, it panics.
unfoldable pub zero_value : Option GoType → Result Failure Value
zero_value (some string_type) = ok (string_value [])
zero_value (some addr_type) = ok (addr_value no_addr)
zero_value (some bool_type) = ok (bool_value false)
zero_value _ = err panic

-- `v.Type() == t` never holds for the nil type.
abbrev pub contains_type? : List Value → Option GoType → Bool
contains_type? args none = false
contains_type? args (some t) = contains_value_of_type args t

abbrev pub is_literal : NodeType → Bool
is_literal t = node_type_eq t literal

-- `m.args[0]`
abbrev first_arg : List Value → Result Failure Value
first_arg [] = err panic
first_arg (v ∷ vs) = ok v

-- The loop over `n.children` that makes the arguments of an explicit choice for match `m`.
unfoldable pub choice_args : Heap → Link → List Ptr → List Value → Result Failure (List Value)
unfolding load contains_value_of_type put_of_type zero_value param_type
choice_args h m [] args = ok args
choice_args h m (p ∷ ps) args = do
  child2 ← load h p
  args' ←
      (if not (p == m.node)
        then (if is_literal child2.t
            then ok (args ++ bool_value false ∷ [])
            else if not (contains_type? args (param_type child2.t true))
            then (do z ← zero_value (param_type child2.t true); ok (args ++ z ∷ []))
            else ok args)
        else (if is_literal child2.t
            then ok (args ++ bool_value true ∷ [])
            else (do v ← first_arg m.args; ok (put_of_type args v))))
  choice_args h m ps args'

abbrev set_args : Heap → List Ptr → Match → Result Failure Match
set_args h cs [] = err panic
set_args h cs (m ∷ next) = do args ← choice_args h m cs []; ok (record m { args = args } ∷ next)

-- `for _, m := range ms` under a choice: the arguments are made again if the choice is explicit.
unfoldable pub choice_matches : Heap → Node → List Match → Result Failure (List Match)
unfolding choice_args
choice_matches h n [] = ok []
choice_matches h n (m ∷ ms) = do
  m' ← (if n.explicit_choice then set_args h n.children m else ok m)
  ms' ← choice_matches h n ms
  ok (m' ∷ ms')

-- The parser of addresses is `netip.ParseAddr`; `none` is its error.
module _ (parse_addr : Str → Option Addr) where
  abbrev family : (Addr → Bool) → Option Addr → Option (List Value)
  family test none = none
  family test (some a) = if test a then some (addr_value a ∷ []) else none

  -- Does a node that is no choice take the token, and with which arguments?
  abbrev accept_as : NodeType → Str → Str → Option (List Value)
  accept_as literal value token = if has_prefix token value then some [] else none
  accept_as param_string value token = some (string_value token ∷ [])
  accept_as param_ipv4 value token = family is_4 (parse_addr token)
  accept_as param_ipv6 value token = family is_6 (parse_addr token)
  accept_as choice value token = none

  unfoldable pub accept : Node → Str → Option (List Value)
  accept n token = accept_as n.t n.value token

  -- `isComplete` of a link whose tail begins with the given match.
  abbrev pub next_complete : Match → Bool
  next_complete [] = false
  next_complete (l ∷ _) = l.is_complete

  abbrev pub link : Ptr → Str → List Value → Bool → Link
  link p token args done = record { node = p; is_complete = done; input = token; args = args }

  -- The copies of `match`, one in front of each match of the child.
  abbrev pub prepend : Ptr → Str → List Value → List Match → List Match
  prepend p token args [] = []
  prepend p token args (m ∷ ms) =
      (link p token args (next_complete m) ∷ m) ∷ prepend p token args ms

  -- `n.matchTokens(tokens)` at the node `p`. The call for a child is passed in.
  unfoldable pub children_matches :
      Heap → Node → (Ptr → Result Failure (List Match)) → List Ptr → Result Failure (List Match)
  unfolding choice_matches
  children_matches h n rec [] = ok []
  children_matches h n rec (c ∷ cs) = do
    ms ← rec c
    ms' ← choice_matches h n ms
    rest ← children_matches h n rec cs
    ok (ms' ++ rest)

  -- After the node's own token: the node has at most one child.
  unfoldable pub follow :
      Ptr
      → Str
      → List Value
      → (Ptr → Result Failure (List Match))
      → List Ptr
      → Result Failure (List Match)
  follow p token args rec [] = ok []
  follow p token args rec (c ∷ []) = do ms ← rec c; ok (prepend p token args ms)
  follow p token args rec (c ∷ _ ∷ _) = err panic

  unfoldable pub match_tokens : ℕ → Heap → Ptr → List Str → Result Failure (List Match)
  unfolding load children_matches follow accept
  match_tokens zero h p tokens = err out_of_fuel
  match_tokens (suc fuel) h p tokens = elim (load h p) [
    | err e ↦ err e
    | ok n ↦ elim (node_type_eq n.t choice) [
      | true ↦ children_matches h n (λ c. match_tokens fuel h c tokens) n.children
      | false ↦ elim tokens [
        | [] ↦ err panic
        | token ∷ rest ↦ elim (accept n token) [
          | none ↦ ok []
          | some args ↦ elim rest [
            | [] ↦ ok ((link p token args (is_some n.handler_func) ∷ []) ∷ [])
            | t2 ∷ ts ↦ follow p token args (λ c. match_tokens fuel h c (t2 ∷ ts)) n.children
          ]
        ]
      ]
    ]
  ]
