-- ===== src/Commands/Merge.antt =====
-- chatterc/commands/commands.go, `mergeWithPath`: one command graph is merged into another, in
-- place. The path and the printed warnings, which only go into messages, are left out.
use chatter.Base.{
  ℕ, zero, suc, ◌+◌, Bool, true, false, not, ◌&&◌, ◌||◌, List, [], ◌∷◌, ◌++◌, Option, none, some,
  leb, if◌then◌else◌, Str, str_eq, length, get_elem?, set,
}
use chatter.Base.Result.{Result, ok, err, ◌>>=◌}
use chatter.Commands.Node.{
  choice, Failure, panic, out_of_fuel, explicit_choice_conflict, Ptr, Node, Heap, load, id,
  node_type_eq,
}
use chatter.Commands.Parser.{modify, new_node, push_child}

next_index : Result Failure (Option ℕ) → Result Failure (Option ℕ)
next_index (err e) = err e
next_index (ok none) = ok none
next_index (ok (some i)) = ok (some (suc i))

-- `findIndex(n, ns)` for a node with the id `key`; `none` is -1.
unfoldable pub find_index : Heap → Str → List Ptr → Result Failure (Option ℕ)
unfolding load id next_index
find_index h key [] = ok none
find_index h key (p ∷ ps) = do
  child ← load h p
  if str_eq (id child) key then ok (some 0) else next_index (find_index h key ps)

-- `ns[i]`
abbrev pub nth : List Ptr → ℕ → Result Failure Ptr
nth ps i = elim (get_elem? ps i) [ none ↦ err panic | some p ↦ ok p ]

abbrev newer {ℓ} : {A : Type ℓ} → Option A → Option A → Option A
newer old none = old
newer old (some f) = some f

abbrev newer_text : Str → Str → Str
newer_text old [] = old
newer_text old (c ∷ s) = c ∷ s

-- `n1.mergeAttributes(path, n2)`
unfoldable pub merge_attributes : Node → Node → Node
merge_attributes n1 n2 = record n1 {
  description = newer_text n1.description n2.description;
  autocomplete_func = newer n1.autocomplete_func n2.autocomplete_func;
  handler_func = newer n1.handler_func n2.handler_func;
}

-- Do the children of two explicit choices agree, id by id?
unfoldable pub same_ids : Heap → List Ptr → List Ptr → Result Failure Bool
unfolding load id
same_ids h [] [] = ok true
same_ids h (p ∷ ps) (q ∷ qs) = do
  c1 ← load h p
  c2 ← load h q
  let rest = same_ids h ps qs
  if str_eq (id c1) (id c2) then rest else ok false
same_ids h _ _ = ok false

-- May two choices be merged, where explicit choices are restricted?
choices_agree : Heap → Node → Node → Result Failure Bool
unfolding same_ids
choices_agree h n1 n2 =
    if n1.explicit_choice && n2.explicit_choice
    then same_ids h n1.children n2.children
    else ok (not (n1.explicit_choice || n2.explicit_choice))

-- `mergeWithPath` at two nodes: the merged node, and the heap.
abbrev pub Merge : Type 0
Merge = Heap → Ptr → Ptr → Result Failure (Ptr × Heap)

abbrev put_child : ℕ → Ptr → Node → Node
put_child i c n = record n { children = set n.children i c }

-- The id of the first child of a node, if it has one.
first_id : Heap → Ptr → Result Failure (Option (Ptr × Str))
unfolding load id
first_id h p = do
  n ← load h p
  elim n.children [ [] ↦ ok none | c ∷ _ ↦ (do child ← load h c; ok (some (c, id child))) ]

-- The inner loop that merges the child of a new option into the child of the first option that
-- has one with the same id.
merge_grandchild : Merge → Heap → Ptr → Str → List Ptr → Result Failure (Option Ptr × Heap)
unfolding first_id
merge_grandchild merge h g key [] = ok (none, h)
merge_grandchild merge h g key (c1 ∷ cs) = do
  first ← first_id h c1
  elim first [
    | none ↦ merge_grandchild merge h g key cs
    | some (p, other) ↦ elim (str_eq other key) [
      | true ↦ (do (gc, h') ← merge h p g; ok (some gc, h'))
      | false ↦ merge_grandchild merge h g key cs
    ]
  ]

abbrev put_if_same : Heap → Ptr → Ptr → Str → Option (Ptr × Str) → Result Failure Heap
put_if_same h c1 g key none = ok h
put_if_same h c1 g key (some (p, other)) =
    if str_eq other key then modify h c1 (put_child 0 g) else ok h

-- `grandchild` becomes the child of each option whose child has its id.
spread : Heap → Ptr → Str → List Ptr → Result Failure Heap
unfolding first_id modify
spread h g key [] = ok h
spread h g key (c1 ∷ cs) = do
  first ← first_id h c1
  h' ← put_if_same h c1 g key first
  spread h' g key cs

-- The grandchild to share: that of the option at `i`, which was merged; or, for a new option, the
-- one that its child was merged into.
grandchild : Merge → Heap → Ptr → Option ℕ → Node → Result Failure (Option Ptr × Heap)
unfolding load id merge_grandchild
grandchild merge h g (some i) node1 = do
  c1 ← nth node1.children i
  child1 ← load h c1
  first ← nth child1.children 0
  ok (some first, h)
grandchild merge h g none node1 = do
  node ← load h g
  merge_grandchild merge h g (id node) node1.children

spread_found : Ptr → Option Ptr × Heap → Result Failure Heap
unfolding load id spread
spread_found n1 (none, h) = ok h
spread_found n1 (some g, h) = do
  node ← load h g
  node1 ← load h n1
  spread h g (id node) node1.children

-- The part of the loop that keeps one shared child below the options of an explicit choice: `i`
-- is the place of the option that was merged, and `none` if it is new.
share_child : Merge → Heap → Ptr → Ptr → Option ℕ → Result Failure Heap
unfolding load grandchild spread_found
share_child merge h n1 c2 i = do
  child2 ← load h c2
  node1 ← load h n1
  elim child2.children [
    | [] ↦ ok h
    | g ∷ more ↦ elim more [
      | [] ↦ (do found ← grandchild merge h g i node1; spread_found n1 found)
      | _ ∷ _ ↦ ok h
    ]
  ]

merge_option : Merge → Heap → Ptr → Ptr → Node → Option ℕ → Result Failure Heap
unfolding modify
merge_option merge h n1 c2 node1 none = modify h n1 (push_child c2)
merge_option merge h n1 c2 node1 (some i) = do
  c1 ← nth node1.children i
  (merged, h') ← merge h c1 c2
  modify h' n1 (put_child i merged)

-- `for _, child2 := range n2.children`; the flag says that both choices are explicit.
merge_options : Merge → Bool → Heap → Ptr → List Ptr → Result Failure Heap
unfolding load id find_index merge_option share_child
merge_options merge both h n1 [] = ok h
merge_options merge both h n1 (c2 ∷ cs) = do
  child2 ← load h c2
  node1 ← load h n1
  i ← find_index h (id child2) node1.children
  h1 ← merge_option merge h n1 c2 node1 i
  h2 ← (if both then share_child merge h1 n1 c2 i else ok h1)
  merge_options merge both h2 n1 cs

abbrev at_most_one : List Ptr → Bool
at_most_one ps = leb (length ps) 1

-- The children of two nodes with one id, neither a choice.
merge_children : Merge → Heap → Ptr → List Ptr → List Ptr → Result Failure Heap
unfolding modify
merge_children merge h n1 cs [] = ok h
merge_children merge h n1 [] (c2 ∷ _) = modify h n1 (push_child c2)
merge_children merge h n1 (c1 ∷ _) (c2 ∷ _) = do
  (merged, h') ← merge h c1 c2
  modify h' n1 (put_child 0 merged)

merge_same : Merge → Heap → Ptr → Node → Node → Result Failure (Ptr × Heap)
unfolding modify merge_attributes merge_children
merge_same merge h n1 node1 node2 = do
  h1 ← modify h n1 (λ n. merge_attributes n node2)
  h2 ←
      (if at_most_one node1.children && at_most_one node2.children
        then merge_children merge h1 n1 node1.children node2.children
        else err panic)
  ok (n1, h2)

-- A choice with the one option `n`, which is not explicit.
abbrev single : Ptr → Node
single n = new_node choice [] (n ∷ []) false

-- The four cases: `relaxed` is `canMergeExplicitChoiceWithAtoms`.
merge_nodes : Merge → Bool → Heap → Ptr → Node → Ptr → Node → Result Failure (Ptr × Heap)
unfolding choices_agree merge_options merge_same id
merge_nodes merge relaxed h n1 node1 n2 node2 =
    if node_type_eq node1.t choice
    then (if node_type_eq node2.t choice
        then (do
          agree ← (if relaxed then ok true else choices_agree h node1 node2)
          h' ←
              (if agree
                then merge_options merge (node1.explicit_choice && node2.explicit_choice) h n1
                    node2.children
                else err explicit_choice_conflict)
          ok (n1, h'))
        else if node1.explicit_choice && not relaxed
        then err explicit_choice_conflict
        else merge (h ++ single n2 ∷ []) n1 (length h))
    else if node_type_eq node2.t choice
    then (if node2.explicit_choice && not relaxed
        then err explicit_choice_conflict
        else merge (h ++ single n1 ∷ []) (length h) n2)
    else if str_eq (id node1) (id node2)
    then merge_same merge h n1 node1 node2
    else merge (h ++ single n1 ∷ single n2 ∷ []) (length h) (length h + 1)

-- `n1.mergeWithPath(path, n2, relaxed)` at two nodes that are not nil.
unfoldable pub merge_with : ℕ → Bool → Merge
unfolding load merge_nodes
merge_with zero relaxed h n1 n2 = err out_of_fuel
merge_with (suc fuel) relaxed h n1 n2 = do
  node1 ← load h n1
  node2 ← load h n2
  merge_nodes (merge_with fuel relaxed) relaxed h n1 node1 n2 node2

-- `n1.Merge(n2)`, and `n1.MergeWithoutExplicitChoiceRestrictions(n2)` if relaxed; the root may be
-- nil.
unfoldable pub merge_root : ℕ → Bool → Heap → Option Ptr → Ptr → Result Failure (Ptr × Heap)
unfolding merge_with
merge_root fuel relaxed h none n2 = ok (n2, h)
merge_root fuel relaxed h (some n1) n2 = merge_with fuel relaxed h n1 n2
