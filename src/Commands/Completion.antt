-- ===== src/Commands/Completion.antt =====
-- chatterc/commands/commands.go: the completions of a line, as texts and as nodes.
pub mod Options
pub mod Sorted
use chatter.Base.{
  ℕ, zero, suc, Bool, true, false, ◌&&◌, ◌||◌, List, [], ◌∷◌, ◌++◌, Option, none, some, ltb, ◌==◌,
  if◌then◌else◌, Str, str_eq, has_prefix, length,
}
use chatter.Base.Utf8.{fields, decode_last_rune, is_space, rune_error}
use chatter.Base.Result.{Result, ok, err, ◌>>=◌}
use chatter.Commands.Node.{
  literal, param_string, param_ipv4, param_ipv6, choice, AutocompleteFunc, Failure, panic,
  out_of_fuel, no_fields, Ptr, Node, Heap, load, node_type_eq,
}
use chatter.Commands.Matching.{Addr, accept}
use chatter.Commands.Leaves.{add_nodes}
use chatter.Commands.Address.{is_prefix_of_ipv4, is_prefix_of_ipv6}

-- `autocompleteFields(s)`: an empty last field where the line ends in a space, or is empty.
unfoldable pub autocomplete_fields : Str → List Str
unfolding fields decode_last_rune is_space
autocomplete_fields s =
    let (r, n) = decode_last_rune s in
    if r == rune_error && n == 1
    then fields s
    else if is_space r || r == rune_error
    then fields s ++ [] ∷ []
    else fields s

-- `contains(strings, s)`
unfoldable pub contains : List Str → Str → Bool
unfolding str_eq
contains [] s = false
contains (x ∷ xs) s = str_eq x s || contains xs s

-- `for _, opt := range opts`: each option that is not there yet is appended.
unfoldable pub add_options : List Str → List Str → List Str
unfolding contains
add_options options [] = options
add_options options (o ∷ os) =
    add_options (if contains options o then options else options ++ o ∷ []) os

unfoldable pub with_prefix : Str → List Str → List Str
unfolding has_prefix
with_prefix prefix [] = []
with_prefix prefix (o ∷ os) =
    if has_prefix prefix o then o ∷ with_prefix prefix os else with_prefix prefix os

-- `n.OptionsFromAutocompleteFunc(prefix)`
unfoldable pub options_from : Option AutocompleteFunc → Str → Result Failure (List Str)
unfolding with_prefix
options_from none prefix = ok []
options_from (some call) prefix = do options ← call; ok (with_prefix prefix options)

-- The options of the last field at a node that is no choice.
unfoldable pub last_options : Node → Str → Result Failure (List Str)
unfolding has_prefix options_from add_options
last_options n field =
    if node_type_eq n.t literal
    then ok (if has_prefix field n.value then n.value ∷ [] else [])
    else (do opts ← options_from n.autocomplete_func field; ok (add_options [] opts))

-- `for _, child := range n.children`, with the call for a child.
unfoldable pub each_options :
    (Ptr → Result Failure (List Str)) → List Ptr → List Str → Result Failure (List Str)
unfolding add_options
each_options rec [] options = ok options
each_options rec (c ∷ cs) options = do opts ← rec c; each_options rec cs (add_options options opts)

module _ (parse_addr : Str → Option Addr) where
  -- `n.getAutocompleteOptionsFromTokens(fields)`
  unfoldable pub option_texts : ℕ → Heap → Ptr → List Str → Result Failure (List Str)
  unfolding load each_options last_options accept
  option_texts zero h p fs = err out_of_fuel
  option_texts (suc fuel) h p fs = elim (load h p) [
    | err e ↦ err e
    | ok n ↦ elim (node_type_eq n.t choice) [
      | true ↦ each_options (λ c. option_texts fuel h c fs) n.children []
      | false ↦ elim fs [
        | [] ↦ err no_fields
        | f ∷ rest ↦ elim rest [
          | [] ↦ last_options n f
          | f2 ∷ more ↦ elim (accept parse_addr n f) [
            | none ↦ ok []
            | some _ ↦ each_options (λ c. option_texts fuel h c (f2 ∷ more)) n.children []
          ]
        ]
      ]
    ]
  ]

-- May the last field begin what the node takes?
unfoldable pub begins : Node → Str → Bool
unfolding has_prefix is_prefix_of_ipv4 is_prefix_of_ipv6
begins n field = elim n.t [
  | literal ↦ has_prefix field n.value
  | param_string ↦ true
  | param_ipv4 ↦ is_prefix_of_ipv4 field
  | param_ipv6 ↦ is_prefix_of_ipv6 field
  | choice ↦ false
]

unfoldable pub each_nodes :
    Heap → (Ptr → Result Failure (List Ptr)) → List Ptr → List Ptr → Result Failure (List Ptr)
unfolding add_nodes
each_nodes h rec [] nodes = ok nodes
each_nodes h rec (c ∷ cs) nodes = do
  opts ← rec c
  nodes' ← add_nodes h nodes opts
  each_nodes h rec cs nodes'

module _ (parse_addr : Str → Option Addr) where
  -- `n.getAutocompleteNodesFromTokens(fields)`
  unfoldable pub option_nodes : ℕ → Heap → Ptr → List Str → Result Failure (List Ptr)
  unfolding load each_nodes begins accept
  option_nodes zero h p fs = err out_of_fuel
  option_nodes (suc fuel) h p fs = elim (load h p) [
    | err e ↦ err e
    | ok n ↦ elim (node_type_eq n.t choice) [
      | true ↦ each_nodes h (λ c. option_nodes fuel h c fs) n.children []
      | false ↦ elim fs [
        | [] ↦ err no_fields
        | f ∷ rest ↦ elim rest [
          | [] ↦ ok (if begins n f then p ∷ [] else [])
          | f2 ∷ more ↦ elim (accept parse_addr n f) [
            | none ↦ ok []
            | some _ ↦ each_nodes h (λ c. option_nodes fuel h c (f2 ∷ more)) n.children []
          ]
        ]
      ]
    ]
  ]

-- The order of `sort.Strings`, by bytes.
unfoldable pub str_lt : Str → Str → Bool
str_lt s [] = false
str_lt [] (b ∷ t) = true
str_lt (a ∷ s) (b ∷ t) = ltb a b || (a == b && str_lt s t)

unfoldable pub insert_sorted : Str → List Str → List Str
unfolding str_lt
insert_sorted s [] = s ∷ []
insert_sorted s (t ∷ ts) = if str_lt t s then t ∷ insert_sorted s ts else s ∷ t ∷ ts

-- `sort.Strings(options)`
unfoldable pub sort_strings : List Str → List Str
unfolding insert_sorted
sort_strings [] = []
sort_strings (s ∷ ss) = insert_sorted s (sort_strings ss)

-- `fields[len(fields)-1]`
abbrev pub last_field : List Str → Result Failure Str
last_field [] = err panic
last_field (f ∷ []) = ok f
last_field (f ∷ g ∷ fs) = last_field (g ∷ fs)

module _ (parse_addr : Str → Option Addr) where
  -- `n.GetAutocompleteOptions(line)`: the sorted options, and how much of them is there already.
  unfoldable pub get_autocomplete_options : ℕ → Heap → Ptr → Str → Result Failure (List Str × ℕ)
  unfolding option_texts autocomplete_fields sort_strings
  get_autocomplete_options fuel h p line = do
    options ← option_texts parse_addr fuel h p (autocomplete_fields line)
    last ← last_field (autocomplete_fields line)
    ok (sort_strings options, length last)

  unfoldable pub get_autocomplete_nodes : ℕ → Heap → Ptr → Str → Result Failure (List Ptr)
  unfolding option_nodes autocomplete_fields
  get_autocomplete_nodes fuel h p line = option_nodes parse_addr fuel h p (autocomplete_fields line)
