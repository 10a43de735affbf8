-- ===== src/Config/Graph/Sorted.antt =====
-- config/graph.go: what the sort returns, and its order where no service depends on itself.
use chatter.Base.{true, List, [], ◌∷◌, ◌++◌, some, ◌≡◌, refl, inl, inr, arith}
use chatter.Config.Service.{ServiceId, has, has-append}
use chatter.Config.Graph.{Graph, keys, node_deps, ids, Progress, visit, enough, topological_sort}
use chatter.Config.Graph.Visits.{
  Distinct, distinct_nil, Within, Grown, has-cons, has-here, has-there, Within-nil, has_none,
  Within-trans, Within-Grown,
}
use chatter.Config.Graph.Ends.{unseen-length, each-Grown, visit-Ends}

-- A list of the services to start: each once, every node of the graph, whatever a listed service
-- depends on, and nothing that the graph does not name.
pub record IsPlan (g : Graph) (k : List ServiceId) : Type 0 where
  pub once : Distinct k
  pub nodes_listed : Within (keys g.nodes) k
  pub deps_listed : (s : ServiceId) → has k s ≡ true → Within (node_deps g.nodes s) k
  pub named : Within k (ids g.nodes)

keys-ids : (m : List (ServiceId × List ServiceId)) → Within (keys m) (ids m)
unfolding keys ids has
keys-ids [] = Within-nil []
keys-ids ((k, ds) ∷ m) = record {
  within = λ x h. elim (has-cons x k (keys m) h) [
    | inl e ↦ rw e (has-here k (ds ++ ids m))
    | inr i ↦
        has-there x k (ds ++ ids m)
          (rw (has-append ds (ids m) x, (keys-ids m).within x i) (ground arith))
  ];
}

abbrev pub start : Progress
start = record { visited = []; stack = [] }

module _ (g : Graph) where
  -- From the start, what is visited is on the stack.
  stacked :
      {q : Progress} (x : ServiceId)
      → Grown g start q
      → has q.visited x ≡ true
      → has q.stack x ≡ true
  stacked x a h = elim (a.finished x h) [ inr k ↦ k | inl v ↦ absurd (has_none x v) ]

  IsPlan-Grown :
      {q : Progress} → Grown g start q → Within (keys g.nodes) q.visited → IsPlan g q.stack
  IsPlan-Grown {q} a ks = record {
    once = a.distinct distinct_nil;
    nodes_listed = record { within = λ x h. stacked x a (ks.within x h) };
    deps_listed = λ s h. elim (a.closed s h) [
      | inl j ↦ absurd (has_none s j)
      | inr w ↦ record { within = λ x i. stacked x a (w.within x i) }
    ];
    named =
        Within-trans (Within-Grown g {p = start} (Within-nil []) a)
          (a.known (Within-nil (ids g.nodes)));
  }

  -- In whatever order the keys of the graph are visited, the sort returns, and it lists each node and
  -- all that a listed service depends on, each once, and nothing that the graph does not name, also
  -- where services depend on each other in a circle.
  pub topological_sort-IsPlan :
      (order : List ServiceId)
      → Within order (keys g.nodes)
      → Within (keys g.nodes) order
      → (k : List ServiceId) × (topological_sort order g ≡ some k) × IsPlan g k
  unfolding topological_sort
  topological_sort-IsPlan order w v =
      let (q, e, a, d) =
        each-Grown g (visit (enough g) g) (enough g) (visit-Ends g (enough g)) order start
          (Within-trans w (keys-ids g.nodes)) (Within-nil [])
          (omega (arith, unseen-length (ids g.nodes))) in
      (q.stack, rw e refl, IsPlan-Grown a (Within-trans v d))
