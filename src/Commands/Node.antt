-- ===== src/Commands/Node.antt =====
-- chatterc/commands/commands.go, `Node`: the nodes of the command graph, on an explicit heap,
-- because `ParseDeclaration` and `Merge` let several nodes share one child.
use chatter.Base.{
  ℕ, ◌+◌, Bool, true, false, List, [], ◌∷◌, ◌++◌, Option, none, some, ◌==◌, Str, codes, str_eq,
  if◌then◌else◌, get_elem?,
}
use chatter.Base.Result.{Result, ok, err, ◌>>=◌}

pub data NodeType : Type 0 where
  literal param_string param_ipv4 param_ipv6 choice : NodeType

abbrev type_code : NodeType → ℕ
type_code literal = 0
type_code param_string = 1
type_code param_ipv4 = 2
type_code param_ipv6 = 3
type_code choice = 4

abbrev pub node_type_eq : NodeType → NodeType → Bool
node_type_eq a b = type_code a == type_code b

-- The types that `reflect` compares here; `other` is any further type of a handler.
pub data GoType : Type 0 where
  string_type addr_type bool_type writer_type error_type : GoType
  other : ℕ → GoType

abbrev go_type_code : GoType → ℕ
go_type_code string_type = 0
go_type_code addr_type = 1
go_type_code bool_type = 2
go_type_code writer_type = 3
go_type_code error_type = 4
go_type_code (other n) = n + 5

abbrev pub go_type_eq : GoType → GoType → Bool
go_type_eq a b = go_type_code a == go_type_code b

-- `paramType(inChoice)`; `none` is the nil type.
unfoldable pub param_type : NodeType → Bool → Option GoType
param_type param_string in_choice = some string_type
param_type param_ipv4 in_choice = some addr_type
param_type param_ipv6 in_choice = some addr_type
param_type literal in_choice = if in_choice then some bool_type else none
param_type choice in_choice = none

-- A function value: which one it is, and its signature.
pub record HandlerFunc : Type 0 where
  pub tag : ℕ
  pub ins : List GoType
  pub outs : List GoType

-- What goes wrong: a run-time panic, the model's fuel, or an error that the code returns.
pub data Failure : Type 0 where
  panic out_of_fuel : Failure
  no_fields autocomplete_failed : Failure
  explicit_choice_conflict : Failure
  handler_on_choice handler_type_mismatch : Failure
  description_on_choice : Failure
  autocomplete_on_choice autocomplete_on_literal : Failure
  match_incomplete handler_not_valid : Failure
  unexpected_character : ℕ → Failure
  expected_close : ℕ → Failure

-- An `AutocompleteFunc` stands for what its call returns; which function it is does not matter.
abbrev pub AutocompleteFunc : Type 0
AutocompleteFunc = Result Failure (List Str)

-- A pointer to a node is its place in the heap.
abbrev pub Ptr : Type 0
Ptr = ℕ

pub record Node : Type 0 where
  pub t : NodeType
  pub value : Str
  pub description : Str
  pub handler_func : Option HandlerFunc
  pub autocomplete_func : Option AutocompleteFunc
  pub children : List Ptr
  pub param_types : List GoType
  pub explicit_choice : Bool

abbrev pub Heap : Type 0
Heap = List Node

-- `*p`: a pointer outside the heap is a nil pointer.
unfoldable pub load : Heap → Ptr → Result Failure Node
load h p = elim (get_elem? h p) [ none ↦ err panic | some n ↦ ok n ]

abbrev type_name : NodeType → Str
type_name literal = codes "literal:"
type_name param_string = codes "param:string"
type_name param_ipv4 = codes "param:ipv4"
type_name param_ipv6 = codes "param:ipv6"
type_name choice = codes "choice"

abbrev id_of : NodeType → Str → Str
id_of literal value = codes "literal:" ++ value
id_of t value = type_name t

-- `n.id()`
unfoldable pub id : Node → Str
id n = id_of n.t n.value

-- `isX() == isX()` for options: is there a function?
abbrev pub is_some {ℓ} : {A : Type ℓ} → Option A → Bool
is_some none = false
is_some (some _) = true

-- `containsNode(ns, n)`: by id, not by pointer.
unfoldable pub contains_node : Heap → List Ptr → Str → Result Failure Bool
unfolding load id
contains_node h [] key = ok false
contains_node h (p ∷ ps) key = do
  n ← load h p
  let rest = contains_node h ps key
  if str_eq (id n) key then ok true else rest
