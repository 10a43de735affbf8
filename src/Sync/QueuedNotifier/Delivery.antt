-- ===== src/Sync/QueuedNotifier/Delivery.antt =====
-- sync/queued_notifier.go: a registered listener misses no change.
use chatter.Base.{
  ℕ, ◌<◌, List, [], ◌∷◌, ◌++◌, Option, none, some, ◌≡◌, refl, arith, append_assoc, append-nil, ◌==◌,
  if◌then◌else◌, Bool-cases, inl, inr, subst, sym, ap, ◌∙◌,
}
use chatter.Sync.Queue.{
  Queue, Outcome, returns, blocks, panics, new_queue, put, get, Holds, new_queue-Holds, put-Holds,
  get-Holds-cons, get-Holds-nil,
}
use chatter.Sync.QueuedNotifier.{
  QueuedNotifier, find, store, remove, register, unregister, put_in, put_all, with_queues,
  notify_change, got, await_in, await_change,
}

-- A run of calls as the holder of the token t sees it: what its `AwaitChange` calls return, and
-- the values of all the `NotifyChange` calls. It does not unregister the token.
pub data Run {A : Type 0} (t : ℕ)
    : QueuedNotifier A → List A → List A → QueuedNotifier A → Type 0 where
  run_end : {n : QueuedNotifier A} → Run t n [] [] n
  run_register : {n m : QueuedNotifier A} {g s : List A} → Run t (register n) g s m → Run t n g s m
  run_unregister :
      {n m : QueuedNotifier A} {g s : List A} {u : ℕ}
      → ¬ (u ≡ t)
      → Run t (unregister u n) g s m
      → Run t n g s m
  run_notify :
      {n n' m : QueuedNotifier A} {g s : List A} {v : A}
      → notify_change v n ≡ returns n'
      → Run t n' g s m
      → Run t n g (v ∷ s) m
  run_await :
      {n n' m : QueuedNotifier A} {g s : List A} {v : A}
      → await_change t n ≡ returns (some v, n')
      → Run t n' g s m
      → Run t n (v ∷ g) s m
  run_await_other :
      {n n' m : QueuedNotifier A} {g s : List A} {u : ℕ} {o : Option A}
      → ¬ (u ≡ t)
      → await_change u n ≡ returns (o, n')
      → Run t n' g s m
      → Run t n g s m

-- The listener t is registered, and this list waits in its queue.
pub record Pending {A : Type 0} (t : ℕ) (n : QueuedNotifier A) (l : List A) : Type 0 where
  pub issued : t < n.next
  pub queue : Queue A
  pub found : find t n.queues ≡ some queue
  pub holds : Holds queue l

pub returns-injective : {B : Type 0} {a b : B} → returns a ≡ returns b → a ≡ b
returns-injective e = grind (arith, e)

some-injective : {B : Type 0} {a b : B} → some a ≡ some b → a ≡ b
some-injective e = grind (arith, e)

module _ {A : Type 0} where
  find-store_same : (t : ℕ) (q : Queue A) (m : List (ℕ × Queue A)) → find t (store t q m) ≡ some q
  unfolding find store
  find-store_same t q [] = ground arith
  find-store_same t q ((u, r) ∷ m) = ground (arith, find-store_same t q m)

  find-store_other :
      {t u : ℕ} (q : Queue A) (m : List (ℕ × Queue A)) → ¬ (u ≡ t) → find t (store u q m) ≡ find t m
  unfolding find store
  find-store_other q [] ne = ground arith
  find-store_other q ((w, r) ∷ m) ne = ground (arith, find-store_other q m ne)

  find-remove_other :
      {t u : ℕ} (m : List (ℕ × Queue A)) → ¬ (u ≡ t) → find t (remove u m) ≡ find t m
  unfolding find remove
  find-remove_other [] ne = refl
  find-remove_other ((w, r) ∷ m) ne = ground (arith, find-remove_other m ne)

  register-Pending : (n : QueuedNotifier A) → Pending n.next (register n) []
  unfolding register find
  register-Pending n = record {
    issued = omega arith;
    queue = new_queue;
    found = ground arith;
    holds = new_queue-Holds;
  }

  pub put_in-returns :
      (o : Outcome (List (ℕ × Queue A))) {t : ℕ} (p : Outcome (Queue A)) {m : List (ℕ × Queue A)}
      → put_in o t p ≡ returns m
      → (r : List (ℕ × Queue A)) × (q : Queue A) × (o ≡ returns r)
        × (p ≡ returns q)
        × (m ≡ (t, q) ∷ r)
  put_in-returns (returns r) (returns q) e = (r, q, refl, refl, grind (arith, e))
  put_in-returns (returns r) blocks e = absurd (grind (arith, e))
  put_in-returns (returns r) panics e = absurd (grind (arith, e))
  put_in-returns blocks p e = absurd (grind (arith, e))
  put_in-returns panics p e = absurd (grind (arith, e))

  put-Holds_result :
      {q r : Queue A} {l : List A} (v : A) → Holds q l → put q v ≡ returns r → Holds r (l ++ v ∷ [])
  put-Holds_result {q} {r} {l} v h e =
      let (q', p, k) = put-Holds v h in
      subst (λ r. Holds r (l ++ v ∷ [])) (returns-injective (sym p ∙ e)) k

  find-put_all :
      (t : ℕ) (v : A) {q : Queue A} {l : List A} (m : List (ℕ × Queue A)) {m' : List (ℕ × Queue A)}
      → put_all v m ≡ returns m'
      → find t m ≡ some q
      → Holds q l
      → (q' : Queue A) × (find t m' ≡ some q') × Holds q' (l ++ v ∷ [])
  unfolding put_all find
  find-put_all t v [] e f h = absurd (grind (arith, f))
  find-put_all t v {q} {l} ((u, r) ∷ m) {m'} e f h =
      let (m0, r', a, b, c) = put_in-returns (put_all v m) (put r v) e in
      let g : (if u == t then some r else find t m) ≡ some q = f in
      elim (Bool-cases (u == t)) [
        | inl y ↦
            (r', rw (c, y), put-Holds_result {q = q} v h (rw (some-injective (sym (rw y at g))) b))
        | inr n ↦ let (q', x, k) = find-put_all t v m a (rw n at g) h in (q', rw (c, n) x, k)
      ]

  pub with_queues-returns :
      (n : QueuedNotifier A) {n' : QueuedNotifier A} (o : Outcome (List (ℕ × Queue A)))
      → with_queues n o ≡ returns n'
      → (m : List (ℕ × Queue A)) × (o ≡ returns m) × (n' ≡ record n { queues = m })
  with_queues-returns n (returns m) e = (m, refl, sym (returns-injective e))
  with_queues-returns n blocks e = absurd (grind (arith, e))
  with_queues-returns n panics e = absurd (grind (arith, e))

  Pending-notify :
      {t : ℕ} {n n' : QueuedNotifier A} {l : List A} (v : A)
      → Pending t n l
      → notify_change v n ≡ returns n'
      → Pending t n' (l ++ v ∷ [])
  unfolding notify_change
  Pending-notify {t} {n} {n'} {l} v p e =
      let (m, a, b) = with_queues-returns n (put_all v n.queues) e in
      let (q, f, h) = find-put_all t v n.queues a p.found p.holds in
      subst (λ k. Pending t k (l ++ v ∷ [])) (sym b)
        (record { issued = p.issued; queue = q; found = f; holds = h })

  Pending-register :
      {t : ℕ} {n : QueuedNotifier A} {l : List A} → Pending t n l → Pending t (register n) l
  unfolding register find
  Pending-register {t} {n} p = record {
    issued = (let lt = p.issued in omega arith);
    queue = p.queue;
    found = (let lt = p.issued in let f = p.found in ground arith);
    holds = p.holds;
  }

  Pending-unregister :
      {t u : ℕ} {n : QueuedNotifier A} {l : List A}
      → ¬ (u ≡ t)
      → Pending t n l
      → Pending t (unregister u n) l
  unfolding unregister
  Pending-unregister {n} ne p = record {
    issued = p.issued;
    queue = p.queue;
    found = find-remove_other n.queues ne ∙ p.found;
    holds = p.holds;
  }

  pub got-returns :
      (u : ℕ) (n : QueuedNotifier A) {n' : QueuedNotifier A} {w : Option A}
      (o : Outcome (A × Queue A))
      → got u n o ≡ returns (w, n')
      → (r : A × Queue A) × (o ≡ returns r)
        × (w ≡ some r.0)
        × (n' ≡ record n { queues = store u r.1 n.queues })
  got-returns u n (returns r) e = (
    r,
    refl,
    ap (λ p. p.0) (sym (returns-injective e)),
    ap (λ p. p.1) (sym (returns-injective e)),
  )
  got-returns u n blocks e = absurd (grind (arith, e))
  got-returns u n panics e = absurd (grind (arith, e))

  Pending-await_in :
      {t u : ℕ} {n n' : QueuedNotifier A} {l : List A} {w : Option A} (o : Option (Queue A))
      → ¬ (u ≡ t)
      → Pending t n l
      → await_in u n o ≡ returns (w, n')
      → Pending t n' l
  unfolding get
  Pending-await_in {t} {n} {l} none ne p e =
      subst (λ k. Pending t k l) (ap (λ r. r.1) (returns-injective e)) p
  Pending-await_in {t} {u} {n} {l} (some q) ne p e =
      let (r, a, b, c) = got-returns u n (get q) e in
      subst (λ k. Pending t k l) (sym c)
        (record {
          issued = p.issued;
          queue = p.queue;
          found = find-store_other r.1 n.queues ne ∙ p.found;
          holds = p.holds;
        })

  Pending-await :
      {t : ℕ} {n n' : QueuedNotifier A} (l : List A) {v : A}
      → Pending t n l
      → await_change t n ≡ returns (some v, n')
      → (l' : List A) × (l ≡ v ∷ l') × Pending t n' l'
  unfolding await_change
  Pending-await {t} {n} {n'} [] p e =
      let d : await_in t n (some p.queue) ≡ returns (some _, n') = rw p.found at e in
      let f : got t n blocks ≡ returns (some _, n') = rw (get-Holds-nil p.holds) at d in
      absurd (grind (arith, f))
  Pending-await {t} {n} {n'} (x ∷ l) {v} p e =
      let (q, g, h) = get-Holds-cons p.holds in
      let d : await_in t n (some p.queue) ≡ returns (some v, n') = rw p.found at e in
      let (r, a, b, c) = got-returns t n (get p.queue) d in
      let k : (x, q) ≡ r = returns-injective (sym g ∙ a) in
      (
        l,
        ap (λ y. y ∷ l) (ap (λ p. p.0) k ∙ some-injective (sym b)),
        subst (λ k. Pending t k l) (sym c)
            (record {
              issued = p.issued;
              queue = r.1;
              found = find-store_same t r.1 n.queues;
              holds = subst (λ q. Holds q l) (ap (λ p. p.1) k) h;
            }),
      )

  Run-Pending :
      {t : ℕ} {n m : QueuedNotifier A} {l g s : List A}
      → Pending t n l
      → Run t n g s m
      → (l' : List A) × Pending t m l' × (l ++ s ≡ g ++ l')
  unfolding await_change
  Run-Pending {l} p run_end = (l, p, append-nil l)
  Run-Pending p (run_register r) = Run-Pending (Pending-register p) r
  Run-Pending p (run_unregister ne r) = Run-Pending (Pending-unregister ne p) r
  Run-Pending {l} p (run_notify {s} {v} e r) =
      let (l', q, k) = Run-Pending (Pending-notify v p e) r in
      (l', q, sym (append_assoc l (v ∷ []) s) ∙ k)
  Run-Pending {n} {l} p (run_await {v} e r) =
      let (l0, c, q0) = Pending-await l p e in
      let (l', q, k) = Run-Pending q0 r in (l', q, rw (c, k))
  Run-Pending {n} p (run_await_other {u} ne e r) =
      Run-Pending (Pending-await_in (find u n.queues) ne p e) r

  -- A listener that registers, and does not unregister during a run of calls, receives each value
  -- that is notified in the run, in order and once: what its calls have returned, followed by
  -- what waits in its queue, is the list of the values notified.
  pub Run-register :
      (n : QueuedNotifier A) {m : QueuedNotifier A} {g s : List A}
      → Run n.next (register n) g s m
      → (l : List A) × Pending n.next m l × (s ≡ g ++ l)
  Run-register n r = Run-Pending (register-Pending n) r
