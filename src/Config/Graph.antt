-- ===== src/Config/Graph.antt =====
-- config/graph.go: the graph of the services that depend on each other, and its sort.
pub mod Visits
pub mod Ends
pub mod Sorted
pub mod Order
use chatter.Base.{
  ℕ, zero, suc, Bool, true, false, List, [], ◌∷◌, ◌++◌, Option, none, some, if◌then◌else◌, length,
}
use chatter.Config.Service.{ServiceId, id_eq, has}

-- The map `nodes`: its entries, each key once.
pub record Graph : Type 0 where
  pub nodes : List (ServiceId × List ServiceId)

abbrev pub new_graph : Graph
new_graph = record { nodes = [] }

unfoldable pub put_node :
    ServiceId
    → List ServiceId
    → List (ServiceId × List ServiceId)
    → List (ServiceId × List ServiceId)
unfolding id_eq
put_node id deps [] = (id, deps) ∷ []
put_node id deps ((k, ds) ∷ m) = if id_eq k id then (id, deps) ∷ m else (k, ds) ∷ put_node id deps m

-- `g.addNode(id, deps...)`
abbrev pub add_node : Graph → ServiceId → List ServiceId → Graph
add_node g id deps = record { nodes = put_node id deps g.nodes }

unfoldable pub keys : List (ServiceId × List ServiceId) → List ServiceId
keys [] = []
keys ((k, ds) ∷ m) = k ∷ keys m

-- `g.nodes[id]`, which is empty where the key is missing.
unfoldable pub node_deps : List (ServiceId × List ServiceId) → ServiceId → List ServiceId
unfolding id_eq
node_deps [] id = []
node_deps ((k, ds) ∷ m) id = if id_eq k id then ds else node_deps m id

-- The keys and the dependencies: no other service can be visited.
unfoldable pub ids : List (ServiceId × List ServiceId) → List ServiceId
ids [] = []
ids ((k, ds) ∷ m) = k ∷ (ds ++ ids m)

-- The two variables that `visit` shares with its calls: the keys of `visited`, and `stack`.
pub record Progress : Type 0 where
  pub visited : List ServiceId
  pub stack : List ServiceId

-- A loop that calls `visit` for each id in turn.
unfoldable pub each :
    (ServiceId → Progress → Option Progress) → List ServiceId → Progress → Option Progress
each visit [] p = some p
each visit (d ∷ ds) p = elim (visit d p) [ none ↦ none | some p' ↦ each visit ds p' ]

abbrev pub push : ServiceId → Option Progress → Option Progress
push s none = none
push s (some p) = some (record p { stack = p.stack ++ s ∷ [] })

-- `visit(service)`; `none` is the end of the fuel.
unfoldable pub visit : ℕ → Graph → ServiceId → Progress → Option Progress
unfolding has node_deps each
visit zero g s p = none
visit (suc fuel) g s p = elim (has p.visited s) [
  | true ↦ some p
  | false ↦
      push s (each (visit fuel g) (node_deps g.nodes s) (record p { visited = s ∷ p.visited }))
]

abbrev pub stack_of : Option Progress → Option (List ServiceId)
stack_of none = none
stack_of (some p) = some p.stack

abbrev pub enough : Graph → ℕ
enough g = suc (length (ids g.nodes))

-- `g.topologicalSort()`, where `range g.nodes` visits the keys in the given order.
unfoldable pub topological_sort : List ServiceId → Graph → Option (List ServiceId)
unfolding visit each ids
topological_sort order g =
    stack_of (each (visit (enough g) g) order (record { visited = []; stack = [] }))
