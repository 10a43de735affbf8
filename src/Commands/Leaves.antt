-- ===== src/Commands/Leaves.antt =====
-- chatterc/commands/commands.go, `Leaves`, the setters, and `Invoker`.
use chatter.Base.{
  ℕ, zero, suc, Bool, true, false, not, ◌&&◌, List, [], ◌∷◌, ◌++◌, Option, none, some,
  if◌then◌else◌, Str,
}
use chatter.Base.Result.{Result, ok, err, ◌>>=◌}
use chatter.Commands.Node.{
  literal, choice, GoType, error_type, HandlerFunc, AutocompleteFunc, Failure, panic, out_of_fuel,
  handler_on_choice, handler_type_mismatch, description_on_choice, autocomplete_on_choice,
  autocomplete_on_literal, match_incomplete, handler_not_valid, Ptr, Node, Heap, load, id,
  contains_node, go_type_eq, node_type_eq,
}
use chatter.Commands.Matching.{Value, Match}
use chatter.Commands.Parser.{modify}

-- The nodes of `ls` whose id is not there yet are appended.
unfoldable pub add_nodes : Heap → List Ptr → List Ptr → Result Failure (List Ptr)
unfolding load id contains_node
add_nodes h found [] = ok found
add_nodes h found (l ∷ ls) = do
  n ← load h l
  seen ← contains_node h found (id n)
  add_nodes h (if seen then found else found ++ l ∷ []) ls

leaves_of :
    Heap → (Ptr → Result Failure (List Ptr)) → List Ptr → List Ptr → Result Failure (List Ptr)
unfolding add_nodes
leaves_of h rec [] found = ok found
leaves_of h rec (c ∷ cs) found = do
  ls ← rec c
  found' ← add_nodes h found ls
  leaves_of h rec cs found'

-- `n.Leaves()`
unfoldable pub leaves : ℕ → Heap → Ptr → Result Failure (List Ptr)
unfolding load leaves_of
leaves zero h p = err out_of_fuel
leaves (suc fuel) h p = elim (load h p) [
  | err e ↦ err e
  | ok n ↦ elim (node_type_eq n.t choice) [
    | true ↦ leaves_of h (leaves fuel h) n.children []
    | false ↦ elim n.children [ [] ↦ ok (p ∷ []) | c ∷ _ ↦ leaves fuel h c ]
  ]
]

unfoldable pub types_eq : List GoType → List GoType → Bool
types_eq [] [] = true
types_eq (a ∷ s) (b ∷ t) = go_type_eq a b && types_eq s t
types_eq _ _ = false

abbrev pub with_handler : HandlerFunc → Node → Node
with_handler f n = record n { handler_func = some f }

-- `n.SetHandlerFunc(f)`: the function must take the node's parameters and return an error.
unfoldable pub set_handler_func : HandlerFunc → Heap → Ptr → Result Failure Heap
unfolding load modify types_eq
set_handler_func f h p = do
  n ← load h p
  if node_type_eq n.t choice
      then err handler_on_choice
      else if not (types_eq f.ins n.param_types && types_eq f.outs (error_type ∷ []))
      then err handler_type_mismatch
      else modify h p (with_handler f)

unfoldable pub set_description : Str → Heap → Ptr → Result Failure Heap
unfolding load modify
set_description text h p = do
  n ← load h p
  if node_type_eq n.t choice
      then err description_on_choice
      else modify h p (λ n. record n { description = text })

unfoldable pub set_autocomplete_func : AutocompleteFunc → Heap → Ptr → Result Failure Heap
unfolding load modify
set_autocomplete_func f h p = do
  n ← load h p
  if node_type_eq n.t choice
      then err autocomplete_on_choice
      else if node_type_eq n.t literal
      then err autocomplete_on_literal
      else modify h p (λ n. record n { autocomplete_func = some f })

pub record Invoker : Type 0 where
  pub args : List Value
  pub handler_func : HandlerFunc

-- The arguments of the links of a match, in order.
abbrev pub all_args : Match → List Value
all_args [] = []
all_args (l ∷ m) = l.args ++ all_args m

-- The node of the last link.
abbrev pub last_node : Ptr → Match → Ptr
last_node p [] = p
last_node p (l ∷ m) = last_node l.node m

abbrev make_invoker : List Value → Option HandlerFunc → Result Failure Invoker
make_invoker args none = err handler_not_valid
make_invoker args (some f) = ok (record { args = args; handler_func = f })

-- `m.Invoker()`
unfoldable pub invoker : Heap → Match → Result Failure Invoker
unfolding load
invoker h [] = err panic
invoker h (l ∷ m) =
    if not l.is_complete
    then err match_incomplete
    else (do n ← load h (last_node l.node m); make_invoker (all_args (l ∷ m)) n.handler_func)
