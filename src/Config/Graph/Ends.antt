-- ===== src/Config/Graph/Ends.antt =====
-- config/graph.go: the sort returns, with the fuel given, whatever the graph.
use chatter.Base.{
  ℕ, zero, suc, ◌<◌, ◌≤◌, Bool, true, false, ◌||◌, List, [], ◌∷◌, ◌++◌, Option, some, length, ◌≡◌,
  refl, inl, inr, Bool-cases, arith,
}
use chatter.Config.Service.{ServiceId, id_eq, id_eq_iff, has, has-append}
use chatter.Config.Graph.{Graph, node_deps, ids, Progress, each, visit}
use chatter.Config.Graph.Visits.{
  Within, Grown, has-cons, has-here, Within-nil, Within-grow, Within-tail, Within-cons,
  Within-trans, Grown-refl, Grown-trans, Grown-push, Within-Grown,
}

-- How many places of the list hold a service that is not visited.
abbrev count_if : Bool → ℕ → ℕ
count_if true n = n
count_if false n = suc n

unfoldable pub unseen : List ServiceId → List ServiceId → ℕ
unfolding has
unseen [] v = 0
unseen (x ∷ xs) v = count_if (has v x) (unseen xs v)

pub unseen-length : (l : List ServiceId) → unseen l [] ≡ length l
unfolding unseen has
unseen-length [] = refl
unseen-length (x ∷ l) = omega (arith, unseen-length l)

pub unseen-le : (l : List ServiceId) {v w : List ServiceId} → Within v w → unseen l w ≤ unseen l v
unfolding unseen
unseen-le [] k = omega arith
unseen-le (x ∷ l) {v} {w} k = elim (Bool-cases (has v x)) [
  | inl y ↦ rw (y, k.within x y) (unseen-le l k)
  | inr n ↦ rw n (elim (Bool-cases (has w x)) [
    | inl z ↦ rw z (omega (arith, unseen-le l k))
    | inr m ↦ rw m (omega (arith, unseen-le l k))
  ])
]

or-true : (b : Bool) → (b || true) ≡ true
or-true b = ground arith

unseen-lt :
    (l v : List ServiceId) (s : ServiceId)
    → has l s ≡ true
    → has v s ≡ false
    → unseen l (s ∷ v) < unseen l v
unfolding unseen has
unseen-lt [] v s h n = absurd (grind (arith, h))
unseen-lt (x ∷ l) v s h n = elim (has-cons s x l h) [
  | inl e ↦
      let here : id_eq s x ≡ true = (id_eq_iff s x).1 e in
      let new : has v x ≡ false = rw e at n in
      rw (here, new) (omega (arith, unseen-le l (Within-cons s v)))
  | inr k ↦ elim (Bool-cases (has v x)) [
    | inl y ↦ rw (y, or-true (id_eq s x)) (unseen-lt l v s k n)
    | inr m ↦ elim (Bool-cases (id_eq s x)) [
      | inl y ↦ rw (y, m) (omega (arith, unseen-le l (Within-cons s v)))
      | inr z ↦ rw (z, m) (omega (arith, unseen-lt l v s k n))
    ]
  ]
]

-- The steps of the loop and of a visit, for the results of their calls.
pub each-next :
    (call : ServiceId → Progress → Option Progress) (d : ServiceId) (ds : List ServiceId)
    {p q r : Progress}
    → call d p ≡ some q
    → each call ds q ≡ some r
    → each call (d ∷ ds) p ≡ some r
unfolding each
each-next call d ds a b = rw (a, each) b

pub visit_seen :
    (fuel : ℕ) (g : Graph) (s : ServiceId) (p : Progress)
    → has p.visited s ≡ true
    → visit (suc fuel) g s p ≡ some p
unfolding visit
visit_seen fuel g s p y = rw (y, visit) refl

pub visit_new :
    (fuel : ℕ) (g : Graph) (s : ServiceId) (p : Progress) {q : Progress}
    → has p.visited s ≡ false
    → each (visit fuel g) (node_deps g.nodes s) (record p { visited = s ∷ p.visited }) ≡ some q
    → visit (suc fuel) g s p ≡ some (record q { stack = q.stack ++ s ∷ [] })
unfolding visit
visit_new fuel g s p n e = rw (n, e, visit) refl

module _ (g : Graph) where
  -- The calls of a loop, one by one: each ends where few enough services are not visited yet.
  pub record Ends (call : ServiceId → Progress → Option Progress) (bound : ℕ) : Type 0 where
    pub ends :
        (s : ServiceId) (p : Progress)
        → has (ids g.nodes) s ≡ true
        → Within p.stack p.visited
        → unseen (ids g.nodes) p.visited < bound
        → (q : Progress) × (call s p ≡ some q) × Grown g p q × (has q.visited s ≡ true)

  pub each-Grown :
      (call : ServiceId → Progress → Option Progress) (bound : ℕ)
      → Ends call bound
      → (ds : List ServiceId) (p : Progress) → Within ds (ids g.nodes)
      → Within p.stack p.visited
      → unseen (ids g.nodes) p.visited < bound
      → (q : Progress) × (each call ds p ≡ some q) × Grown g p q × Within ds q.visited
  unfolding each
  each-Grown call bound e [] p i w l = (p, refl, Grown-refl g p, Within-nil p.visited)
  each-Grown call bound e (d ∷ ds) p i w l =
      let (q, eq, a, v) = e.ends d p (i.within d (has-here d ds)) w l in
      let fewer = unseen-le (ids g.nodes) (record { within = a.visited_kept }) in
      let (r, er, b, vs) =
        each-Grown call bound e ds q (Within-tail i) (Within-Grown g w a)
          (omega (arith, fewer, l)) in
      (r, each-next call d ds eq er, Grown-trans g a b, Within-grow vs (b.visited_kept d v))

  node_deps-Within :
      (s : ServiceId) (m : List (ServiceId × List ServiceId)) → Within (node_deps m s) (ids m)
  unfolding node_deps ids has
  node_deps-Within s [] = Within-nil []
  node_deps-Within s ((k, ds) ∷ m) = elim (Bool-cases (id_eq k s)) [
    | inl y ↦
        rw y (record { within = λ x h. rw (has-append ds (ids m) x, h) (or-true (id_eq k x)) })
    | inr n ↦ rw n (record {
      within =
          λ x h. rw (has-append ds (ids m) x, (node_deps-Within s m).within x h) (ground arith);
    })
  ]

  -- Fuel above the number of the services that are not visited yet is enough.
  pub visit-Ends : (fuel : ℕ) → Ends (visit fuel g) fuel
  visit-Ends zero = record { ends = λ s p h w l. absurd (omega (arith, l)) }
  visit-Ends (suc fuel) = record {
    ends = λ s p h w l. elim (Bool-cases (has p.visited s)) [
      | inl y ↦ (p, visit_seen fuel g s p y, Grown-refl g p, y)
      | inr n ↦
          let less = unseen-lt (ids g.nodes) p.visited s h n in
          let (q, e, a, d) =
            each-Grown (visit fuel g) fuel (visit-Ends fuel) (node_deps g.nodes s)
              (record p { visited = s ∷ p.visited }) (node_deps-Within s g.nodes)
              (Within-trans w (Within-cons s p.visited)) (omega (arith, less, l)) in
          (
            record q { stack = q.stack ++ s ∷ [] },
            visit_new fuel g s p n e,
            Grown-push g s p.visited p.stack q h n w a d,
            a.visited_kept s (has-here s p.visited),
          )
    ];
  }
