-- ===== src/Config/Graph/Visits.antt =====
-- config/graph.go: what a visit does to the visited services and to the stack, on any graph.
use chatter.Base.{
  Bool, true, false, ◌||◌, List, [], ◌∷◌, ◌++◌, ◌≡◌, refl, sym, ◌⊎◌, inl, inr, Bool-cases, arith,
}
use chatter.Config.Service.{ServiceId, id_eq, id_eq_iff, has, has-append}
use chatter.Config.Graph.{Graph, node_deps, ids, Progress}

-- No service comes twice.
pub data Distinct : List ServiceId → Type 0 where
  distinct_nil : Distinct []
  distinct_snoc :
      {k l : List ServiceId} (s : ServiceId)
      → Distinct k
      → has k s ≡ false
      → l ≡ k ++ s ∷ []
      → Distinct l

-- Is each service of the first list in the second?
pub record Within (xs ys : List ServiceId) : Type 0 where
  pub within : (x : ServiceId) → has xs x ≡ true → has ys x ≡ true

-- What a visit, or several, may do.
pub record Grown (g : Graph) (p q : Progress) : Type 0 where
  pub visited_kept : (x : ServiceId) → has p.visited x ≡ true → has q.visited x ≡ true
  pub stack_kept : (x : ServiceId) → has p.stack x ≡ true → has q.stack x ≡ true
  -- A service visited meanwhile is on the stack.
  pub finished :
      (x : ServiceId) → has q.visited x ≡ true → (has p.visited x ≡ true) ⊎ (has q.stack x ≡ true)
  -- A service pushed meanwhile was visited meanwhile.
  pub fresh :
      (x : ServiceId)
      → has q.stack x ≡ true
      → (has p.stack x ≡ true) ⊎ ((has p.visited x ≡ false) × (has q.visited x ≡ true))
  -- And so were its dependencies, or before.
  pub closed :
      (x : ServiceId)
      → has q.stack x ≡ true
      → (has p.stack x ≡ true) ⊎ Within (node_deps g.nodes x) q.visited
  pub distinct : Distinct p.stack → Distinct q.stack
  pub known : Within p.visited (ids g.nodes) → Within q.visited (ids g.nodes)

pub has-cons :
    (x s : ServiceId) (l : List ServiceId) → has (s ∷ l) x ≡ true → (x ≡ s) ⊎ (has l x ≡ true)
unfolding has
has-cons x s l h = elim (Bool-cases (id_eq s x)) [
  | inl y ↦ inl (sym ((id_eq_iff s x).0 y))
  | inr n ↦ inr (rw n at h)
]

pub has-here : (s : ServiceId) (l : List ServiceId) → has (s ∷ l) s ≡ true
unfolding has
has-here s l = rw ((id_eq_iff s s).1 refl) refl

pub has-there : (x s : ServiceId) (l : List ServiceId) → has l x ≡ true → has (s ∷ l) x ≡ true
unfolding has
has-there x s l h = ground (arith, h)

pub has_none : (x : ServiceId) → ¬ (has [] x ≡ true)
unfolding has
has_none x h = cc

pub Within-nil : (l : List ServiceId) → Within [] l
unfolding has
Within-nil l = record { within = λ x h. absurd (grind (arith, h)) }

pub Within-grow :
    {s : ServiceId} {xs ys : List ServiceId} → Within xs ys → has ys s ≡ true → Within (s ∷ xs) ys
Within-grow {s} {xs} w h = record {
  within = λ x i. elim (has-cons x s xs i) [ inl e ↦ rw e h | inr k ↦ w.within x k ];
}

pub Within-tail : {s : ServiceId} {xs ys : List ServiceId} → Within (s ∷ xs) ys → Within xs ys
Within-tail {s} {xs} w = record { within = λ x h. w.within x (has-there x s xs h) }

pub Within-cons : (s : ServiceId) (v : List ServiceId) → Within v (s ∷ v)
Within-cons s v = record { within = λ x h. has-there x s v h }

pub Within-refl : (l : List ServiceId) → Within l l
Within-refl l = record { within = λ x h. h }

pub Within-trans : {xs ys zs : List ServiceId} → Within xs ys → Within ys zs → Within xs zs
Within-trans a b = record { within = λ x h. b.within x (a.within x h) }

pub has-snoc :
    (x s : ServiceId) (k : List ServiceId) → has (k ++ s ∷ []) x ≡ true → (has k x ≡ true) ⊎ (x ≡ s)
unfolding has
has-snoc x s k h = elim (Bool-cases (has k x)) [
  | inl y ↦ inl y
  | inr n ↦
      let t : has (s ∷ []) x ≡ true = rw (has-append k (s ∷ []) x, n) at h in
      elim (has-cons x s [] t) [ inl e ↦ inr e | inr f ↦ cc ]
]

not_has_there : (x s : ServiceId) (l : List ServiceId) → has (s ∷ l) x ≡ false → has l x ≡ false
unfolding has
not_has_there x s l h = ground (arith, h)

pub has-last : (b : Bool) (s : ServiceId) → (b || has (s ∷ []) s) ≡ true
has-last b s = rw (has-here s []) (ground arith)

not-Within :
    {xs ys : List ServiceId} (s : ServiceId) → Within xs ys → has ys s ≡ false → has xs s ≡ false
not-Within {xs} s w n = elim (Bool-cases (has xs s)) [
  | inr m ↦ m
  | inl y ↦ absurd (grind (arith, w.within s y, n))
]

module _ (g : Graph) where
  pub Grown-refl : (p : Progress) → Grown g p p
  Grown-refl p = record {
    visited_kept = λ x h. h;
    stack_kept = λ x h. h;
    finished = λ x h. inl h;
    fresh = λ x h. inl h;
    closed = λ x h. inl h;
    distinct = λ d. d;
    known = λ w. w;
  }

  pub Grown-trans : {p q r : Progress} → Grown g p q → Grown g q r → Grown g p r
  Grown-trans {p} {q} {r} a b = record {
    visited_kept = λ x h. b.visited_kept x (a.visited_kept x h);
    stack_kept = λ x h. b.stack_kept x (a.stack_kept x h);
    finished = λ x h. elim (b.finished x h) [
      | inr k ↦ inr k
      | inl v ↦ elim (a.finished x v) [ inl u ↦ inl u | inr k ↦ inr (b.stack_kept x k) ]
    ];
    fresh = λ x h. elim (b.fresh x h) [
      | inl k ↦ elim (a.fresh x k) [ inl j ↦ inl j | inr n ↦ inr (n.0, b.visited_kept x n.1) ]
      | inr n ↦ elim (Bool-cases (has p.visited x)) [
        | inl v ↦ absurd (grind (arith, a.visited_kept x v, n.0))
        | inr m ↦ inr (m, n.1)
      ]
    ];
    closed = λ x h. elim (b.closed x h) [
      | inr w ↦ inr w
      | inl k ↦ elim (a.closed x k) [
        | inl j ↦ inl j
        | inr w ↦ inr (record { within = λ d i. b.visited_kept d (w.within d i) })
      ]
    ];
    distinct = λ d. b.distinct (a.distinct d);
    known = λ w. b.known (a.known w);
  }

  -- A service that was visited without being pushed is not pushed.
  not_pushed :
      {p q : Progress} (s : ServiceId)
      → Grown g p q
      → has p.visited s ≡ true
      → has p.stack s ≡ false
      → has q.stack s ≡ false
  not_pushed {p} {q} s a v k = elim (Bool-cases (has q.stack s)) [
    | inr n ↦ n
    | inl y ↦ elim (a.fresh s y) [
      | inl j ↦ absurd (grind (arith, j, k))
      | inr m ↦ absurd (grind (arith, m.0, v))
    ]
  ]

  -- A service whose dependencies are visited is pushed.
  pub Grown-push :
      (s : ServiceId) (v k : List ServiceId) (q : Progress)
      → has (ids g.nodes) s ≡ true
      → has v s ≡ false
      → Within k v
      → Grown g (record { visited = s ∷ v; stack = k }) q
      → Within (node_deps g.nodes s) q.visited
      → Grown g (record { visited = v; stack = k }) (record q { stack = q.stack ++ s ∷ [] })
  Grown-push s v k q h0 n w a deps = record {
    visited_kept = λ x h. a.visited_kept x (has-there x s v h);
    stack_kept = λ x h. rw (has-append q.stack (s ∷ []) x, a.stack_kept x h) refl;
    finished = λ x h. elim (a.finished x h) [
      | inr j ↦ inr (rw (has-append q.stack (s ∷ []) x, j) refl)
      | inl u ↦ elim (has-cons x s v u) [
        | inr t ↦ inl t
        | inl e ↦ inr (rw (has-append q.stack (s ∷ []) x, e) (has-last (has q.stack s) s))
      ]
    ];
    fresh = λ x h. elim (has-snoc x s q.stack h) [
      | inl j ↦ elim (a.fresh x j) [ inl t ↦ inl t | inr m ↦ inr (not_has_there x s v m.0, m.1) ]
      | inr e ↦ inr (rw e n, a.visited_kept x (rw e (has-here s v)))
    ];
    closed =
        λ x h. elim (has-snoc x s q.stack h) [ inl j ↦ a.closed x j | inr e ↦ inr (rw e deps) ];
    distinct =
        λ d. distinct_snoc s (a.distinct d) (not_pushed s a (has-here s v) (not-Within s w n)) refl;
    known = λ i. a.known (Within-grow i h0);
  }

  -- The stack stays within the visited services.
  pub Within-Grown :
      {p q : Progress} → Within p.stack p.visited → Grown g p q → Within q.stack q.visited
  Within-Grown w a = record {
    within = λ x h. elim (a.fresh x h) [ inl j ↦ a.visited_kept x (w.within x j) | inr m ↦ m.1 ];
  }
