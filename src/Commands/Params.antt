-- ===== src/Commands/Params.antt =====
-- chatterc/commands/commands.go, `updateParamTypes` and `ParseDeclaration`: the types of the
-- parameters that a handler at each node takes.
use chatter.Base.{
  ℕ, zero, suc, Bool, true, false, not, ◌||◌, List, [], ◌∷◌, ◌++◌, Option, none, some,
  if◌then◌else◌, Str, length,
}
use chatter.Base.Result.{Result, ok, err, ◌>>=◌}
use chatter.Commands.Node.{
  choice, GoType, bool_type, writer_type, go_type_eq, param_type, Failure, out_of_fuel, Ptr, Node,
  Heap, load, node_type_eq,
}
use chatter.Commands.Parser.{modify, parse_command}

-- `containsType(types, t)`
unfoldable pub contains_type : List GoType → GoType → Bool
contains_type [] t = false
contains_type (u ∷ us) t = go_type_eq u t || contains_type us t

-- A parameter's type is added if it is new; the type of a literal, if it is a choice's, always.
abbrev pub add_type : List GoType → Option GoType → List GoType
add_type types none = types
add_type types (some t) =
    if not (contains_type types t) || go_type_eq t bool_type then types ++ t ∷ [] else types

unfoldable pub choice_types : Heap → List Ptr → List GoType → Result Failure (List GoType)
unfolding load param_type contains_type
choice_types h [] types = ok types
choice_types h (p ∷ ps) types = do
  child ← load h p
  choice_types h ps (add_type types (param_type child.t true))

abbrev pub append_type : List GoType → Option GoType → List GoType
append_type types none = types
append_type types (some t) = types ++ t ∷ []

-- A loop that updates the heap at each pointer.
unfoldable pub for_each : (Heap → Ptr → Result Failure Heap) → List Ptr → Heap → Result Failure Heap
for_each body [] h = ok h
for_each body (p ∷ ps) h = do h' ← body h p; for_each body ps h'

abbrev pub with_types : List GoType → Node → Node
with_types types n = record n { param_types = types }

-- `child.paramTypes = clonedTypes`, then the update of each child of the child.
update_option : (Heap → Ptr → Result Failure Heap) → List GoType → Heap → Ptr → Result Failure Heap
unfolding modify for_each
update_option update types h p = do
  h1 ← modify h p (with_types types)
  child ← load h1 p
  for_each update child.children h1

-- `n.updateParamTypesWithTypes(types)`; the fuel bounds the depth of the graph.
unfoldable pub update_with_types : ℕ → List GoType → Heap → Ptr → Result Failure Heap
unfolding load choice_types update_option modify for_each param_type
update_with_types zero types h p = err out_of_fuel
update_with_types (suc fuel) types h p = elim (load h p) [
  | err e ↦ err e
  | ok n ↦ elim (node_type_eq n.t choice) [
    | true ↦ elim (choice_types h n.children types) [
      | err e ↦ err e
      | ok cloned ↦ for_each (update_option (update_with_types fuel cloned) cloned) n.children h
    ]
    | false ↦ elim (modify h p (with_types (append_type types (param_type n.t false)))) [
      | err e ↦ err e
      | ok h1 ↦
          for_each (update_with_types fuel (append_type types (param_type n.t false))) n.children h1
    ]
  ]
]

unfoldable pub update_param_types : ℕ → Heap → Ptr → Result Failure Heap
unfolding update_with_types
update_param_types fuel = update_with_types fuel (writer_type ∷ [])

-- `ParseDeclaration(s)`: the root, and the heap behind it. Each node on a path of the graph takes a
-- byte of the declaration at least, so its length bounds the depth.
unfoldable pub parse_declaration : Str → Heap → Result Failure (Ptr × Heap)
unfolding parse_command update_param_types
parse_declaration s h = do
  (root, h1) ← parse_command s h
  h2 ← update_param_types (suc (length s)) h1 root
  ok (root, h2)
