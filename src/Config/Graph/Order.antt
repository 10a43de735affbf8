-- ===== src/Config/Graph/Order.antt =====
-- config/graph.go: the order of the sort where no service depends on itself, directly or not.
use chatter.Base.{
  ℕ, zero, suc, ◌<◌, true, List, [], ◌∷◌, ◌++◌, Option, none, some, ◌≡◌, refl, ◌⊎◌, inl, inr,
  Bool-cases, Option-cases, some-injective, some-ne-none, subst, sym, arith,
}
use chatter.Config.Service.{ServiceId, has, has-append}
use chatter.Config.Graph.{
  Graph, keys, node_deps, Progress, each, push, visit, enough, topological_sort,
}
use chatter.Config.Graph.Visits.{
  Within, has-cons, has-here, has_none, has-last, Within-nil, Within-grow, Within-tail, Within-refl,
}
use chatter.Config.Graph.Sorted.{IsPlan, start, topological_sort-IsPlan}

-- Each service of the list comes behind all that it depends on.
pub data InOrder (g : Graph) : List ServiceId → Type 0 where
  in_order_nil : InOrder g []
  in_order_snoc :
      {k l : List ServiceId} (s : ServiceId)
      → InOrder g k
      → Within (node_deps g.nodes s) k
      → l ≡ k ++ s ∷ []
      → InOrder g l

-- A rank that falls along the dependencies, so that there is no circle.
pub record Ranked (g : Graph) (rank : ServiceId → ℕ) : Type 0 where
  pub falls : (s d : ServiceId) → has (node_deps g.nodes s) d ≡ true → rank d < rank s

module _ (g : Graph) (rank : ServiceId → ℕ) (ranked : Ranked g rank) where
  -- What is visited and not pushed yet waits for the service, so it ranks higher.
  record Waits (s : ServiceId) (p : Progress) : Type 0 where
    above : (x : ServiceId) → has p.visited x ≡ true → (has p.stack x ≡ true) ⊎ (rank s < rank x)

  record Pushed (p q : Progress) : Type 0 where
    kept : (x : ServiceId) → has p.stack x ≡ true → has q.stack x ≡ true
    done :
        (x : ServiceId) → has q.visited x ≡ true → (has p.visited x ≡ true) ⊎ (has q.stack x ≡ true)
    in_order : InOrder g q.stack

  record Orders (call : ServiceId → Progress → Option Progress) : Type 0 where
    orders :
        (s : ServiceId) (p q : Progress)
        → call s p ≡ some q
        → Waits s p
        → InOrder g p.stack
        → Pushed p q × (has q.stack s ≡ true)

  Waits-Pushed : {s : ServiceId} {p q : Progress} → Waits s p → Pushed p q → Waits s q
  Waits-Pushed w a = record {
    above = λ x h. elim (a.done x h) [
      | inr k ↦ inl k
      | inl v ↦ elim (w.above x v) [ inl j ↦ inl (a.kept x j) | inr l ↦ inr l ]
    ];
  }

  Pushed-refl : (p : Progress) → InOrder g p.stack → Pushed p p
  Pushed-refl p i = record { kept = λ x h. h; done = λ x h. inl h; in_order = i }

  Pushed-trans : {p q r : Progress} → Pushed p q → Pushed q r → Pushed p r
  Pushed-trans a b = record {
    kept = λ x h. b.kept x (a.kept x h);
    done = λ x h. elim (b.done x h) [
      | inr k ↦ inr k
      | inl v ↦ elim (a.done x v) [ inl u ↦ inl u | inr k ↦ inr (b.kept x k) ]
    ];
    in_order = b.in_order;
  }

  each-Pushed :
      (call : ServiceId → Progress → Option Progress)
      → Orders call
      → (ds : List ServiceId) (p q : Progress) → each call ds p ≡ some q
      → ((d : ServiceId) → has ds d ≡ true → Waits d p)
      → InOrder g p.stack
      → Pushed p q × Within ds q.stack
  unfolding each
  each-Pushed call o [] p q e w i =
      (subst (λ r. Pushed p r) (some-injective e) (Pushed-refl p i), Within-nil q.stack)
  each-Pushed call o (d ∷ ds) p q e w i = elim (Option-cases (call d p)) [
    | inl n ↦ absurd (some-ne-none (sym (rw (n, each) at e)))
    | inr (m, c) ↦
        let rest : each call ds m ≡ some q = rw (c, each) at e in
        let (a, j) = o.orders d p m c (w d (has-here d ds)) i in
        let (b, l) =
          each-Pushed call o ds m q rest
            (λ x h. Waits-Pushed (w x ((Within-tail (Within-refl (d ∷ ds))).within x h)) a)
            a.in_order in
        (Pushed-trans a b, Within-grow l (b.kept d j))
  ]

  -- The services that a service is about to visit wait for nothing that ranks lower.
  Waits-deps :
      {s : ServiceId} {p : Progress} (d : ServiceId)
      → Waits s p
      → has (node_deps g.nodes s) d ≡ true
      → Waits d (record p { visited = s ∷ p.visited })
  Waits-deps {s} {p} d w h = record {
    above = λ x v. elim (has-cons x s p.visited v) [
      | inl e ↦ inr (rw e (ranked.falls s d h))
      | inr u ↦ elim (w.above x u) [
        | inl k ↦ inl k
        | inr l ↦ inr (omega (arith, l, ranked.falls s d h))
      ]
    ];
  }

  Pushed-snoc :
      {s : ServiceId} {p q : Progress}
      → Pushed (record p { visited = s ∷ p.visited }) q
      → Within (node_deps g.nodes s) q.stack
      → Pushed p (record q { stack = q.stack ++ s ∷ [] })
  Pushed-snoc {s} {p} {q} a w = record {
    kept = λ x h. rw (has-append q.stack (s ∷ []) x, a.kept x h) refl;
    done = λ x h. elim (a.done x h) [
      | inr k ↦ inr (rw (has-append q.stack (s ∷ []) x, k) refl)
      | inl v ↦ elim (has-cons x s p.visited v) [
        | inr u ↦ inl u
        | inl e ↦ inr (rw (has-append q.stack (s ∷ []) x, e) (has-last (has q.stack s) s))
      ]
    ];
    in_order = in_order_snoc s a.in_order w refl;
  }

  abbrev marked : ServiceId → Progress → Progress
  marked s p = record p { visited = s ∷ p.visited }

  push-Pushed :
      (s : ServiceId) (p q : Progress) (r : Option Progress)
      → push s r ≡ some q
      → ((m : Progress) → r ≡ some m → Pushed (marked s p) m × Within (node_deps g.nodes s) m.stack)
      → Pushed p q × (has q.stack s ≡ true)
  push-Pushed s p q none e h = absurd (some-ne-none (sym e))
  push-Pushed s p q (some m) e h =
      let (a, w) = h m refl in
      subst (λ r. Pushed p r × (has r.stack s ≡ true)) (some-injective e)
        (Pushed-snoc a w, rw (has-append m.stack (s ∷ []) s) (has-last (has m.stack s) s))

  visit-Orders : (fuel : ℕ) → Orders (visit fuel g)
  unfolding visit
  visit-Orders zero = record { orders = λ s p q e w i. absurd (some-ne-none (sym e)) }
  visit-Orders (suc fuel) = record {
    orders = λ s p q e w i. elim (Bool-cases (has p.visited s)) [
      | inl y ↦
          let same : p ≡ q = some-injective (rw (y, visit) at e) in
          elim (w.above s y) [
            | inl k ↦ subst (λ r. Pushed p r × (has r.stack s ≡ true)) same (Pushed-refl p i, k)
            | inr l ↦ absurd (omega (arith, l))
          ]
      | inr n ↦
          push-Pushed s p q (each (visit fuel g) (node_deps g.nodes s) (marked s p))
            (rw (n, visit) at e)
            (λ m c.
              each-Pushed (visit fuel g) (visit-Orders fuel) (node_deps g.nodes s) (marked s p) m c
                (λ d h. Waits-deps d w h) i)
    ];
  }

  sort-InOrder : (order k : List ServiceId) → topological_sort order g ≡ some k → InOrder g k
  unfolding topological_sort
  sort-InOrder order k e = elim (Option-cases (each (visit (enough g) g) order start)) [
    | inl n ↦ absurd (some-ne-none (sym (rw n at e)))
    | inr (q, c) ↦
        let same : some q.stack ≡ some k = rw c at e in
        let (a, l) =
          each-Pushed (visit (enough g) g) (visit-Orders (enough g)) order start q c
            (λ d h. record { above = λ x v. absurd (has_none x v) }) in_order_nil in
        subst (InOrder g) (some-injective same) a.in_order
  ]

  -- The sort returns a list of the services to start in which each comes behind all that it depends
  -- on, in whatever order the keys are visited, where a rank of the services falls along the
  -- dependencies.
  pub topological_sort-InOrder :
      (order : List ServiceId)
      → Within order (keys g.nodes)
      → Within (keys g.nodes) order
      → (k : List ServiceId) × (topological_sort order g ≡ some k) × IsPlan g k × InOrder g k
  topological_sort-InOrder order w v =
      let (k, e, plan) = topological_sort-IsPlan g order w v in (k, e, plan, sort-InOrder order k e)
