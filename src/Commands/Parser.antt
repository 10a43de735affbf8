-- ===== src/Commands/Parser.antt =====
-- chatterc/commands/commands.go, `commandParser`: the parser of command declarations. The state
-- is what is left of `p.s` and how much of it has been read, so `mark` is the state itself.
pub mod Moves
pub mod Fine
pub mod Graph
pub mod Total
use chatter.Base.{
  ℕ, zero, suc, ◌+◌, Bool, true, false, not, ◌&&◌, ◌||◌, List, [], ◌∷◌, ◌++◌, Option, none, some,
  ◌==◌, leb, if◌then◌else◌, Str, codes, strip_prefix, length, set, ◌≡◌, refl,
}
use chatter.Base.Utf8.{decode_rune}
use chatter.Base.Result.{Result, ok, err, ◌>>=◌}
use chatter.Commands.Node.{
  NodeType, literal, param_string, param_ipv4, param_ipv6, choice, Failure, panic, out_of_fuel,
  unexpected_character, expected_close, Ptr, Node, Heap, load, node_type_eq,
}

pub record Parser : Type 0 where
  pub rest : Str
  pub pos : ℕ

-- The rune at the position; at the end it is `utf8.RuneError`.
abbrev pub peek : Parser → ℕ
peek p = (decode_rune p.rest).0

abbrev pub within : ℕ → ℕ → ℕ → Bool
within lo hi c = leb lo c && leb c hi

abbrev pub is_upper : ℕ → Bool
is_upper = within b'A' b'Z'

-- `isLitStart` and `isLitRest` of a rune.
abbrev pub lit_start : ℕ → Bool
lit_start c = within b'a' b'z' c || is_upper c

abbrev pub lit_rest : ℕ → Bool
lit_rest c = lit_start c || within b'0' b'9' c || c == b'_' || c == b'-'

abbrev is_eof : Parser → Bool
is_eof p = elim p.rest [ [] ↦ true | _ ∷ _ ↦ false ]

abbrev pub is_eol : Parser → Bool
is_eol p = is_eof p || peek p == b'\n'

abbrev pub is_element_end : Parser → Bool
is_element_end p = is_eol p || peek p == b' ' || peek p == b'|' || peek p == b'>'

-- Reads runes while they pass the test. Each test here passes ASCII runes only, so a rune that
-- `next` reads is one byte.
unfoldable pub span : (ℕ → Bool) → Str → ℕ → Str × Parser
span test [] pos = ([], record { rest = []; pos = pos })
span test (b ∷ s) pos =
    let more : Str × Parser = (let (word, p) = span test s (pos + 1) in (b ∷ word, p)) in
    if test (decode_rune (b ∷ s)).0 then more else ([], record { rest = b ∷ s; pos = pos })

unfoldable pub skip_whitespace : Parser → Parser
unfolding span
skip_whitespace p = (span (λ c. c == b' ') p.rest p.pos).1

-- `consume(s)`: `none` is false, and leaves the state as it was.
unfoldable pub consume : Str → Parser → Option Parser
unfolding strip_prefix
consume s p = elim (strip_prefix s p.rest) [
  | none ↦ none
  | some rest ↦ some (record { rest = rest; pos = p.pos + length s })
]

-- `&Node{t: t, value: value}`
abbrev pub new_node : NodeType → Str → List Ptr → Bool → Node
new_node t value children explicit = record {
  t = t;
  value = value;
  description = [];
  handler_func = none;
  autocomplete_func = none;
  children = children;
  param_types = [];
  explicit_choice = explicit;
}

abbrev pub alloc : Heap → Node → Ptr × Heap
alloc h n = (length h, h ++ n ∷ [])

-- A parser of part of a declaration: the node, the state behind it, and the heap.
abbrev pub Parsed : Type 0
Parsed = Result Failure (Ptr × Parser × Heap)

-- `parseIPv4Param` and `parseIPv6Param`, on their text; `none` is the nil node.
unfoldable pub param : Str → NodeType → Parser → Heap → Option (Ptr × Parser × Heap)
unfolding consume decode_rune
param text t p h = elim (consume text p) [
  | none ↦ none
  | some q ↦ if is_element_end q then some (length h, q, h ++ new_node t [] [] false ∷ []) else none
]

unfoldable pub string_param : Parser → Heap → Option (Ptr × Parser × Heap)
unfolding span decode_rune
string_param p h =
    let (word, q) = span is_upper p.rest p.pos in
    if is_element_end q
    then some (length h, q, h ++ new_node param_string word [] false ∷ [])
    else none

-- The error is reported at the position before the literal.
unfoldable pub parse_literal : Parser → Heap → Parsed
unfolding span decode_rune
parse_literal p h =
    let (word, q) = span lit_rest p.rest p.pos in
    if is_element_end q
    then ok (length h, q, h ++ new_node literal word [] false ∷ [])
    else err (unexpected_character p.pos)

unfoldable pub or_else : Option (Ptr × Parser × Heap) → Parsed → Parsed
or_else (some r) other = ok r
or_else none other = other

-- The chain of attempts in `parseElement` behind `<`.
unfoldable pub parse_atom : Parser → Heap → Parsed
unfolding param string_param parse_literal or_else
parse_atom p h = or_else (param (codes "A.B.C.D") param_ipv4 p h) (
    or_else (param (codes "X:X:X::X") param_ipv6 p h) (
      or_else (if is_upper (peek p) then string_param p h else none)
        (if lit_start (peek p) then parse_literal p h else err (unexpected_character p.pos))))

-- The parser of an element, on the heap so far.
abbrev pub ParseAt : Type 0
ParseAt = Parser → Heap → Parsed

-- The options of a choice behind the first one, each behind a `|`; one round for each byte is
-- enough.
unfoldable pub parse_options :
    ParseAt → ℕ → Parser → Heap → List Ptr → Result Failure (List Ptr × Parser × Heap)
unfolding skip_whitespace consume
parse_options element zero p h cs = err out_of_fuel
parse_options element (suc fuel) p h cs = elim (consume (codes "|") (skip_whitespace p)) [
  | none ↦ ok (cs, skip_whitespace p, h)
  | some q ↦ elim (element (skip_whitespace q) h) [
    | err e ↦ err e
    | ok (c, q', h') ↦ parse_options element fuel q' h' (cs ++ c ∷ [])
  ]
]

-- The end of `parseChoice`: `pos` is the position of the `<`, to which errors go back.
unfoldable pub close_choice : ℕ → List Ptr → Parser → Heap → Parsed
unfolding consume skip_whitespace
close_choice pos cs p h = elim (consume (codes ">") (skip_whitespace p)) [
  | none ↦ err (expected_close pos)
  | some q ↦
      if is_element_end q
      then ok (length h, q, h ++ new_node choice [] cs true ∷ [])
      else err (unexpected_character pos)
]

-- `parseChoice` at a state behind the `<`.
unfoldable pub parse_choice : ParseAt → ℕ → Parser → Heap → Parsed
unfolding parse_options close_choice skip_whitespace
parse_choice element pos p h = do
  (c, q, h1) ← element (skip_whitespace p) h
  (cs, q', h2) ← parse_options element (suc (length q.rest)) q h1 (c ∷ [])
  close_choice pos cs q' h2

-- Choices nest, so the fuel bounds their depth.
unfoldable pub parse_element : ℕ → ParseAt
unfolding parse_choice parse_atom consume
parse_element zero p h = err out_of_fuel
parse_element (suc fuel) p h = elim (consume (codes "<") p) [
  | none ↦ parse_atom p h
  | some q ↦ parse_choice (parse_element fuel) p.pos q h
]

-- `f(*p)`, stored at `p`.
unfoldable pub modify : Heap → Ptr → (Node → Node) → Result Failure Heap
unfolding load
modify h p f = do n ← load h p; ok (set h p (f n))

abbrev pub push_child : Ptr → Node → Node
push_child c n = record n { children = n.children ++ c ∷ [] }

unfoldable pub push_each : Heap → List Ptr → Ptr → Result Failure Heap
unfolding modify
push_each h [] c = ok h
push_each h (p ∷ ps) c = do h' ← modify h p (push_child c); push_each h' ps c

-- The child goes below the node, or below each option of a choice.
unfoldable pub attach : Heap → Ptr → Ptr → Result Failure Heap
unfolding push_each load
attach h p c = do
  n ← load h p
  if node_type_eq n.t choice then push_each h n.children c else modify h p (push_child c)

-- The loop of `parseCommand`: `n` is the last element.
unfoldable pub parse_rest : ParseAt → ℕ → Ptr → Parser → Heap → Result Failure Heap
unfolding attach skip_whitespace
parse_rest element zero n p h = err out_of_fuel
parse_rest element (suc fuel) n p h = elim (is_eol (skip_whitespace p)) [
  | true ↦ ok h
  | false ↦ elim (element (skip_whitespace p) h) [
    | err e ↦ err e
    | ok (c, q, h1) ↦ elim (attach h1 n c) [
      | err e ↦ err e
      | ok h2 ↦ parse_rest element fuel c q h2
    ]
  ]
]

-- `parseCommand` on a heap that has nodes already.
unfoldable pub parse_command : Str → Heap → Result Failure (Ptr × Heap)
unfolding parse_element parse_rest skip_whitespace
parse_command s h = do
  let element = parse_element (suc (length s))
  (root, q, h1) ← element (skip_whitespace (record { rest = s; pos = 0 })) h
  h2 ← parse_rest element (suc (length q.rest)) root q h1
  ok (root, h2)
