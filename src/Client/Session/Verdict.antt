-- ===== src/Client/Session/Verdict.antt =====
-- chatterc/cli.go, `runLine`: what becomes of each line.
use chatter.Base.{
  ℕ, ◌≤◌, ◌<◌, Bool, true, false, List, [], ◌∷◌, Option, some, Str, length, All, Any, ◌≡◌,
}
use chatter.Base.Result.{ok}
use chatter.Commands.Node.{Ptr, Node, Heap, load, is_some}
use chatter.Commands.Matching.{Addr, Match, Link}
use chatter.Commands.Leaves.{Invoker, all_args, last_node}
use chatter.Client.Session.{
  trim_space, Ran, ignored, unknown, incomplete, ambiguous, runs, is_complete,
}

abbrev last_of : Ptr → List Ptr → Ptr
last_of p [] = p
last_of p (q ∷ qs) = last_of q qs

module _ (parse_addr : Str → Option Addr) (h : Heap) where
  -- A path has a first node, and its flag says whether its last node has a handler.
  data Ending (done : Bool) : List Ptr → Type 0 where
    ending :
        {p : Ptr} {ps : List Ptr} {n : Node}
        → load h (last_of p ps) ≡ ok n
        → done ≡ is_some n.handler_func
        → Ending done (p ∷ ps)

  -- The first link of a match, which says whether it is complete, and its last node.
  data Split : Match → Type 0 where
    split :
        {l : Link} {m : Match} {n : Node}
        → load h (last_node l.node m) ≡ ok n
        → l.is_complete ≡ is_some n.handler_func
        → Split (l ∷ m)

  -- How many of the matches are complete.
  data Counted (ms : List Match) (k : ℕ) : Type 0 where
    all_incomplete : k ≡ 0 → All (λ (m : Match). is_complete m ≡ ok false) ms → Counted ms k
    some_complete :
        0 < k → k ≤ length ms → Any (λ (m : Match). is_complete m ≡ ok true) ms → Counted ms k

  -- What becomes of a line that is not blank, with the matches of `Match`.
  pub data Verdict (line : Str) (out : List Match) : Ran → Type 0 where
    finds_none : out ≡ [] → Verdict line out (unknown (trim_space line))
    finds_part :
        0 < length out
        → All (λ (m : Match). is_complete m ≡ ok false) out
        → Verdict line out (incomplete (trim_space line))
    finds_several :
        1 < length out
        → Any (λ (m : Match). is_complete m ≡ ok true) out
        → Verdict line out (ambiguous (trim_space line))
    finds_one :
        {l : Link} {m : Match} {n : Node} {i : Invoker}
        → out ≡ (l ∷ m) ∷ []
        → load h (last_node l.node m) ≡ ok n
        → n.handler_func ≡ some i.handler_func
        → i.args ≡ all_args (l ∷ m)
        → Verdict line out (runs i)

  -- What becomes of a line, the blank one and all others.
  pub data Handled (line : Str) (out : List Match) (r : Ran) : Type 0 where
    blank : trim_space line ≡ [] → r ≡ ignored → Handled line out r
    not_blank : ¬ (trim_space line ≡ []) → Verdict line out r → Handled line out r
