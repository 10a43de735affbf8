-- ===== src/Tests/Commands.antt =====
-- chatterc/commands/commands.go: a command graph and its matches.
use chatter.Base.{
  length, ℕ, Bool, true, false, List, [], ◌∷◌, Option, none, some, ◌≡◌, refl, Str, codes, str_eq,
  has_prefix, if◌then◌else◌, All, all_nil, all_cons, At, head, tail,
}
use chatter.Base.Result.{ok}
use chatter.Commands.Node.{
  NodeType, literal, choice, GoType, HandlerFunc, Ptr, Node, Heap, load, writer_type, error_type,
}
use chatter.Commands.Matching.{Addr, ipv4, Link, Match, match_tokens}
use chatter.Commands.Matching.Paths.{PathOf, through, last, more, abbreviates}
use chatter.Commands.Matching.Sound.{IsMatch, match_tokens-IsMatch}
use chatter.Commands.Matching.Arguments.{atom}
use chatter.Commands.Matching.Total.{Graph, leaf, chain, fork}
use chatter.Commands.Matching.Complete.{Found, PathOf-Found}
use chatter.Base.Utf8.{fields}
use chatter.Commands.Disambiguate.Input.{match_input-returns}
use chatter.Commands.Disambiguate.{match_input, is_exact, disambiguate}
use chatter.Commands.Disambiguate.Returns.{Long, long_end, long_link, disambiguate-returns}
use chatter.Commands.Disambiguate.Exact.{
  Heads, Loaded, loaded, exacts, prefer_exact, disambiguate_one, disambiguate_misplaces,
}
use chatter.Commands.Completion.{autocomplete_fields, last_field, get_autocomplete_options}
use chatter.Commands.Completion.Options.{Begin}
use chatter.Commands.Completion.Sorted.{Ascending, get_autocomplete_options-Ascending}
use chatter.Commands.Parser.{parse_command}
use chatter.Commands.Parser.Fine.{closed}
use chatter.Commands.Parser.Total.{Answers, parse_command-Answers}

-- A parser of addresses that knows one.
pub parse_one : Str → Option Addr
unfolding str_eq
parse_one s = if str_eq s (codes "1.2.3.4") then some (ipv4 0x01020304) else none

abbrev handler : List GoType → Option HandlerFunc
handler ins = some (record { tag = 0; ins = ins; outs = error_type ∷ [] })

abbrev node : NodeType → Str → List Ptr → Option HandlerFunc → Bool → Node
node t value children handler explicit = record {
  t = t;
  value = value;
  description = [];
  handler_func = handler;
  autocomplete_func = none;
  children = children;
  param_types = [];
  explicit_choice = explicit;
}

-- `show <ip|ipv6> <route|routes>` as two declarations merged: the choices are implicit.
abbrev pub graph : Heap
graph =
    node literal (codes "show") (1 ∷ []) none false
    ∷ node choice [] (2 ∷ 3 ∷ []) none false
    ∷ node literal (codes "ipv6") (4 ∷ []) none false
    ∷ node literal (codes "ip") (4 ∷ []) none false
    ∷ node choice [] (5 ∷ 6 ∷ []) none false
    ∷ node literal (codes "route") [] (handler (writer_type ∷ [])) false
    ∷ node literal (codes "routes") [] (handler (writer_type ∷ [])) false
    ∷ []

abbrev tokens : List Str
tokens = codes "sh" ∷ codes "ip" ∷ codes "route" ∷ []

abbrev visit : Ptr → Ptr → Match
visit p q =
    record { node = 0; is_complete = true; input = codes "sh"; args = [] }
    ∷ record { node = p; is_complete = true; input = codes "ip"; args = [] }
    ∷ record { node = q; is_complete = true; input = codes "route"; args = [] }
    ∷ []

abbrev matches : List Match
matches = visit 2 5 ∷ visit 2 6 ∷ visit 3 5 ∷ visit 3 6 ∷ []

found_four : match_tokens parse_one 10 graph 0 tokens ≡ ok matches
unfolding match_tokens parse_one has_prefix
found_four = refl

match_tokens-IsMatch_example : All (IsMatch parse_one graph 0 tokens) matches
match_tokens-IsMatch_example = match_tokens-IsMatch parse_one graph 10 0 tokens matches found_four

ip_route : PathOf parse_one graph 0 tokens (0 ∷ 3 ∷ 5 ∷ []) true
unfolding load
ip_route = more refl (abbreviates (codes "ow") refl refl) refl (
    through refl refl (tail head) (
      more refl (abbreviates [] refl refl) refl
        (through refl refl head (last refl (abbreviates [] refl refl)))))

PathOf-Found_example : Found parse_one graph (0 ∷ 3 ∷ 5 ∷ []) true matches
PathOf-Found_example = PathOf-Found parse_one graph 10 ip_route found_four

-- `sh ip route` runs `show ipv6 route`.
wrong_one : disambiguate graph tokens matches ≡ ok (visit 2 5 ∷ [])
unfolding disambiguate str_eq
wrong_one = refl

matches-Long : All (Long graph 3) matches
unfolding load
matches-Long = all_cons (long_link refl (long_link refl (long_link refl long_end))) (
    all_cons (long_link refl (long_link refl (long_link refl long_end))) (
      all_cons (long_link refl (long_link refl (long_link refl long_end)))
        (all_cons (long_link refl (long_link refl (long_link refl long_end))) all_nil)))

disambiguate-returns_example :
    (out : List Match) × (disambiguate graph tokens matches ≡ ok out) × All (λ m. At m matches) out
disambiguate-returns_example = disambiguate-returns graph tokens matches matches-Long

-- The same for a prompt where the choice comes first: `ip route`.
abbrev step : Ptr → Str → Link
step p input = record { node = p; is_complete = true; input = input; args = [] }

abbrev pair : Ptr → Ptr → Match
pair p q = step p (codes "ip") ∷ step q (codes "route") ∷ []

reads_as :
    (t : Str) (exact : Bool) (l : Link) (m : Match) (n : Node)
    → load graph l.node ≡ ok n
    → is_exact n t ≡ exact
    → Heads graph t exact (l ∷ m)
reads_as t exact l m n e x = record {
  link = l;
  next = m;
  node = n;
  is = refl;
  loaded = e;
  tests = x;
}

disambiguate_misplaces_example :
    disambiguate graph
      (codes "ip" ∷ codes "route" ∷ [])
      (pair 2 5 ∷ pair 2 6 ∷ pair 3 5 ∷ pair 3 6 ∷ [])
    ≡ ok (pair 2 5 ∷ [])
unfolding load str_eq
disambiguate_misplaces_example =
    disambiguate_misplaces graph (codes "ip") (codes "route") [] (pair 2 5) (pair 2 6) (pair 3 5)
      (pair 3 6) (reads_as (codes "ip") false (step 2 (codes "ip")) _ _ refl refl)
      (reads_as (codes "ip") false (step 2 (codes "ip")) _ _ refl refl)
      (reads_as (codes "ip") true (step 3 (codes "ip")) _ _ refl refl)
      (reads_as (codes "ip") true (step 3 (codes "ip")) _ _ refl refl)
      (reads_as (codes "route") true (step 5 (codes "route")) _ _ refl refl)
      (reads_as (codes "route") false (step 6 (codes "route")) _ _ refl refl)

abbrev one_word : Str → Ptr → Match
one_word input p = step p input ∷ []

abbrev routes : List Match
routes = one_word (codes "route") 6 ∷ one_word (codes "route") 5 ∷ []

routes-Loaded : All (Loaded graph) routes
unfolding load
routes-Loaded = all_cons (loaded _ _ _ refl refl) (all_cons (loaded _ _ _ refl refl) all_nil)

disambiguate_one_example :
    disambiguate graph (codes "route" ∷ []) routes
    ≡ ok (prefer_exact (exacts graph (codes "route") routes) routes)
disambiguate_one_example = disambiguate_one graph (codes "route") routes routes-Loaded

parse_command-Answers_example :
    Answers (codes "show <A.B.C.D|all> X") (parse_command (codes "show <A.B.C.D|all> X") [])
parse_command-Answers_example =
    parse_command-Answers (codes "show <A.B.C.D|all> X") [] (closed all_nil)

abbrev pub height : ℕ
height = 5

route_graph : Graph graph 1 5
unfolding load
route_graph = leaf refl refl refl

routes_graph : Graph graph 1 6
unfolding load
routes_graph = leaf refl refl refl

abbrev route_options : (c : Ptr) → At c (5 ∷ 6 ∷ []) → Graph graph 1 c
route_options _ head = route_graph
route_options _ (tail head) = routes_graph
route_options _ (tail (tail i)) = elim i [ ]

second_choice : Graph graph 2 4
unfolding load
second_choice =
    fork refl refl (all_cons (atom refl refl) (all_cons (atom refl refl) all_nil)) route_options

abbrev ip_options : (c : Ptr) → At c (2 ∷ 3 ∷ []) → Graph graph 3 c
unfolding load
ip_options _ head = chain refl refl refl second_choice
ip_options _ (tail head) = chain refl refl refl second_choice
ip_options _ (tail (tail i)) = elim i [ ]

pub whole_graph : Graph graph height 0
unfolding load ip_options
whole_graph =
    chain refl refl refl
      (fork refl refl (all_cons (atom refl refl) (all_cons (atom refl refl) all_nil)) ip_options)

match_input-returns_example :
    (out : List Match) × (match_input parse_one height graph 0 (codes "sh ip route") ≡ ok out)
    × All (IsMatch parse_one graph 0 (fields (codes "sh ip route"))) out
match_input-returns_example =
    match_input-returns parse_one graph height 0 (codes "sh ip route") whole_graph

pub ipv6_and_ip :
    get_autocomplete_options parse_one height graph 0 (codes "sh i")
    ≡ ok (codes "ip" ∷ codes "ipv6" ∷ [], 1)
unfolding get_autocomplete_options
ipv6_and_ip = refl

get_autocomplete_options-Ascending_example :
    Ascending (codes "ip" ∷ codes "ipv6" ∷ [])
    × ((field : Str) × (last_field (autocomplete_fields (codes "sh i")) ≡ ok field)
        × Begin field (codes "ip" ∷ codes "ipv6" ∷ [])
        × (1 ≡ length field))
get_autocomplete_options-Ascending_example =
    get_autocomplete_options-Ascending parse_one graph height 0 (codes "sh i") ipv6_and_ip
