-- ===== src/Client/Session.antt =====
-- chatterc/cli.go: running a line, and registering commands, their texts and their completions.
pub mod Verdict
use chatter.Base.{
  ℕ, zero, suc, Bool, true, false, ◌&&◌, List, [], ◌∷◌, ◌++◌, Option, none, some, leb, ltb, ◌==◌,
  if◌then◌else◌, Str, str_eq, length, take, drop, ◌-◌,
}
use chatter.Base.Utf8.{decode_rune, decode_last_rune, is_space}
use chatter.Base.Result.{Result, ok, err, ◌>>=◌}
use chatter.Commands.Node.{
  Failure, panic, out_of_fuel, HandlerFunc, AutocompleteFunc, Ptr, Node, Heap,
}
use chatter.Commands.Matching.{Addr, Match}
use chatter.Commands.Disambiguate.{match_input}
use chatter.Commands.Leaves.{
  Invoker, invoker, leaves, set_handler_func, set_description, set_autocomplete_func,
}
use chatter.Commands.Params.{parse_declaration}
use chatter.Commands.Merge.{merge_root}

-- `strings.TrimSpace(s)`: runes of space are dropped at both ends. Each round drops a byte or more.
unfoldable pub trim_left : ℕ → Str → Str
unfolding decode_rune is_space
trim_left zero s = s
trim_left (suc n) [] = []
trim_left (suc n) (b ∷ s) =
    let (r, size) = decode_rune (b ∷ s) in
    let rest = trim_left n (drop size (b ∷ s)) in if is_space r then rest else b ∷ s

unfoldable pub trim_right : ℕ → Str → Str
unfolding decode_last_rune is_space
trim_right zero s = s
trim_right (suc n) [] = []
trim_right (suc n) (b ∷ s) =
    let (r, size) = decode_last_rune (b ∷ s) in
    let rest = trim_right n (take (length (b ∷ s) - size) (b ∷ s)) in
    if is_space r then rest else b ∷ s

unfoldable pub trim_space : Str → Str
unfolding trim_left trim_right
trim_space s = let left = trim_left (length s) s in trim_right (length left) left

-- What `runLine` does: nothing, one of its messages, or the call of a handler with the arguments of the
-- match. What the handler does is its own.
pub data Ran : Type 0 where
  ignored : Ran
  unknown incomplete ambiguous : Str → Ran
  error : Failure → Ran
  runs : Invoker → Ran

-- `m.IsComplete()`
abbrev pub is_complete : Match → Result Failure Bool
is_complete [] = err panic
is_complete (l ∷ m) = ok l.is_complete

-- How many matches are complete.
unfoldable pub count_complete : List Match → Result Failure ℕ
count_complete [] = ok 0
count_complete (m ∷ ms) = do c ← is_complete m; n ← count_complete ms; ok (if c then suc n else n)

-- An error that `Invoker` returns is shown; a panic is none.
abbrev pub invoked : Result Failure Invoker → Result Failure Ran
invoked (ok i) = ok (runs i)
invoked (err panic) = err panic
invoked (err out_of_fuel) = err out_of_fuel
invoked (err e) = ok (error e)

abbrev pub first_match : List Match → Result Failure Match
first_match [] = err panic
first_match (m ∷ ms) = ok m

-- The chain on the number of the matches, and of those that are complete.
unfoldable pub on_matches : Heap → Str → List Match → ℕ → Result Failure Ran
unfolding invoker
on_matches h line matches complete =
    if complete == 0 && length matches == 0
    then ok (unknown line)
    else if complete == 0
    then ok (incomplete line)
    else if ltb 1 complete
    then ok (ambiguous line)
    else if ltb 1 (length matches)
    then ok (ambiguous line)
    else (do m ← first_match matches; invoked (invoker h m))

module _ (parse_addr : Str → Option Addr) where
  -- `cli.runLine(line, w)`
  unfoldable pub run_line : ℕ → Heap → Ptr → Str → Result Failure Ran
  unfolding trim_space on_matches count_complete match_input
  run_line fuel h root line = elim (str_eq (trim_space line) []) [
    | true ↦ ok ignored
    | false ↦ (do
      matches ← match_input parse_addr fuel h root (trim_space line)
      complete ← count_complete matches
      on_matches h (trim_space line) matches complete)
  ]

-- The root of the commands of a client, if there is one yet.
pub record Cli : Type 0 where
  pub root : Option Ptr
  pub heap : Heap

-- `for _, l := range n.Leaves()` in `Register`.
unfoldable pub each_leaf :
    (Heap → Ptr → Result Failure Heap) → List Ptr → Heap → Result Failure Heap
each_leaf f [] h = ok h
each_leaf f (l ∷ ls) h = do h' ← f h l; each_leaf f ls h'

abbrev pub with_command : HandlerFunc → Str → Heap → Ptr → Result Failure Heap
with_command f description h l = do h1 ← set_handler_func f h l; set_description description h1 l

-- The loops of `Document` and `RegisterAutocomplete` drop the error, and a leaf with an error stays as
-- it is; a panic ends them.
abbrev pub dropped : Heap → Result Failure Heap → Result Failure Heap
dropped h (ok h') = ok h'
dropped h (err panic) = err panic
dropped h (err out_of_fuel) = err out_of_fuel
dropped h (err e) = ok h

abbrev pub with_description : Str → Heap → Ptr → Result Failure Heap
with_description text h l = dropped h (set_description text h l)

abbrev pub with_completion : AutocompleteFunc → Heap → Ptr → Result Failure Heap
with_completion f h l = dropped h (set_autocomplete_func f h l)

-- What the three have in common: the declaration is parsed, its leaves are set, and it is merged, with
-- the restrictions on explicit choices or without.
unfoldable pub add_declaration :
    ℕ → Bool → (Heap → Ptr → Result Failure Heap) → Str → Cli → Result Failure Cli
unfolding parse_declaration leaves each_leaf merge_root
add_declaration fuel relaxed f command cli = do
  (n, h1) ← parse_declaration command cli.heap
  ls ← leaves fuel h1 n
  h2 ← each_leaf f ls h1
  (root, h3) ← merge_root fuel relaxed h2 cli.root n
  ok (record { root = some root; heap = h3 })

-- `cli.Register(command, description, handlerFunc)`
abbrev pub register : ℕ → Str → Str → HandlerFunc → Cli → Result Failure Cli
register fuel command description f cli =
    add_declaration fuel false (with_command f description) command cli

-- `cli.Document(command, description)`
abbrev pub document : ℕ → Str → Str → Cli → Result Failure Cli
document fuel command description cli =
    add_declaration fuel true (with_description description) command cli

-- `cli.RegisterAutocomplete(command, autocompleteFunc)`
abbrev pub register_autocomplete : ℕ → Str → AutocompleteFunc → Cli → Result Failure Cli
register_autocomplete fuel command f cli = add_declaration fuel true (with_completion f) command cli
