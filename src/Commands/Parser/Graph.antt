-- ===== src/Commands/Parser/Graph.antt =====
-- chatterc/commands/commands.go, `commandParser`: adding children keeps the graph free of dangling
-- pointers.
use chatter.Base.{
  ◌<◌, List, [], ◌∷◌, length, set, length-set, All, all_nil, all_cons, All-append, All-set,
  All-get_elem?, ◌≡◌, refl, sym, ◌∙◌, subst, inl, inr, Bool-cases,
}
use chatter.Base.Result.{Result, ok}
use chatter.Commands.Node.{choice, Failure, Ptr, Node, Heap, load, node_type_eq}
use chatter.Commands.Parser.{modify, push_child, push_each, attach}
use chatter.Commands.Parser.Fine.{Below, Closed, closed}

-- A write to the heap that succeeds and keeps it closed.
pub data Updates (h : Heap) : Result Failure Heap → Type 0 where
  updates : {h' : Heap} → Closed h' → length h' ≡ length h → Updates h (ok h')

pub updated :
    {h : Heap} {r : Result Failure Heap}
    → Updates h r
    → (h' : Heap) × (r ≡ ok h') × Closed h' × (length h' ≡ length h)
updated (updates {h'} c l) = (h', refl, c, l)

Updates-trans :
    {h k : Heap} {r : Result Failure Heap} → length k ≡ length h → Updates k r → Updates h r
Updates-trans e (updates c l) = updates c (l ∙ e)

pub load-Closed :
    (h : Heap) (p : Ptr)
    → Closed h
    → p < length h
    → (n : Node) × (load h p ≡ ok n) × Below (length h) n.children
unfolding load
load-Closed h p (closed a) l = let (n, e, b) = All-get_elem? p a l in (n, rw (e, load), b)

modify-Closed :
    (h : Heap) (p c : Ptr)
    → Closed h
    → p < length h
    → c < length h
    → Updates h (modify h p (push_child c))
unfolding modify
modify-Closed h p c (closed a) l k =
    let (n, e, b) = load-Closed h p (closed a) l in
    let v : Node = push_child c n in
    let s = length-set h p v in
    rw e (
      updates
        (closed (
          subst (λ m. All (λ n. Below m n.children) (set h p v)) (sym s)
            (All-set p a (All-append b (all_cons k all_nil)))))
        s)

push_each-Closed :
    (h : Heap) (ps : List Ptr) (c : Ptr)
    → Closed h
    → Below (length h) ps
    → c < length h
    → Updates h (push_each h ps c)
unfolding push_each
push_each-Closed h [] c a b k = updates a refl
push_each-Closed h (p ∷ ps) c a (all_cons l b) k =
    let (h', e, a', n) = updated (modify-Closed h p c a l k) in
    rw e
      (Updates-trans n (push_each-Closed h' ps c a' (subst (λ m. Below m ps) (sym n) b) (rw n k)))

-- A child of the graph becomes a child of a node of the graph, or of the options of a choice.
pub attach-Closed :
    (h : Heap) (p c : Ptr) → Closed h → p < length h → c < length h → Updates h (attach h p c)
unfolding attach
attach-Closed h p c a l k =
    let (n, e, b) = load-Closed h p a l in
    elim (Bool-cases (node_type_eq n.t choice)) [
      | inl y ↦ rw (e, y) (push_each-Closed h n.children c a b k)
      | inr z ↦
          let g = modify-Closed h p c a l k in
          let w : Updates h (ok (set h p (push_child c n))) = rw (e, modify) at g in rw (e, z) w
    ]
