-- ===== src/Sync/QueuedNotifier/Progress.antt =====
-- sync/queued_notifier.go: no call stands on a channel that nobody reads.
use chatter.Base.{
  ℕ, List, [], ◌∷◌, Option, none, some, ◌≡◌, refl, ◌⊎◌, inl, inr, ◌==◌, if◌then◌else◌, Bool-cases,
  sym, ap, ◌∙◌, subst, arith,
}
use chatter.Sync.Queue.{
  Queue, Outcome, returns, blocks, get, Holds, new_queue-Holds, put-Holds, get-Holds-cons,
  get-Holds-nil,
}
use chatter.Sync.QueuedNotifier.{
  QueuedNotifier, new_notifier, find, store, remove, register, unregister, put_all, notify_change,
  await_in, await_change,
}
use chatter.Sync.QueuedNotifier.Delivery.{returns-injective, got-returns, with_queues-returns}

-- The states that the calls lead to from a new notifier.
pub data Reachable {A : Type 0} : QueuedNotifier A → Type 0 where
  reach_new : Reachable new_notifier
  reach_register : {n : QueuedNotifier A} → Reachable n → Reachable (register n)
  reach_unregister : {n : QueuedNotifier A} (u : ℕ) → Reachable n → Reachable (unregister u n)
  reach_notify :
      {n n' : QueuedNotifier A} (v : A)
      → Reachable n
      → notify_change v n ≡ returns n'
      → Reachable n'
  reach_await :
      {n n' : QueuedNotifier A} (u : ℕ) (o : Option A)
      → Reachable n
      → await_change u n ≡ returns (o, n')
      → Reachable n'

-- Each queue holds a list.
data EachHolds {A : Type 0} : List (ℕ × Queue A) → Type 0 where
  each_nil : EachHolds []
  each_cons :
      {t : ℕ} {q : Queue A} {l : List A} {m : List (ℕ × Queue A)}
      → Holds q l
      → EachHolds m
      → EachHolds ((t, q) ∷ m)

module _ {A : Type 0} where
  EachHolds-put_all :
      (v : A) {m : List (ℕ × Queue A)}
      → EachHolds m
      → (m' : List (ℕ × Queue A)) × (put_all v m ≡ returns m') × EachHolds m'
  unfolding put_all
  EachHolds-put_all v each_nil = ([], refl, each_nil)
  EachHolds-put_all v (each_cons {t} h k) =
      let (m', e, k') = EachHolds-put_all v k in
      let (q', f, h') = put-Holds v h in ((t, q') ∷ m', rw (e, f), each_cons h' k')

  EachHolds-remove : (u : ℕ) {m : List (ℕ × Queue A)} → EachHolds m → EachHolds (remove u m)
  unfolding remove
  EachHolds-remove u each_nil = each_nil
  EachHolds-remove u (each_cons {t} h k) = elim (Bool-cases (t == u)) [
    | inl y ↦ rw y (EachHolds-remove u k)
    | inr n ↦ rw n (each_cons h (EachHolds-remove u k))
  ]

  EachHolds-store :
      (u : ℕ) {q : Queue A} {l : List A} {m : List (ℕ × Queue A)}
      → Holds q l
      → EachHolds m
      → EachHolds (store u q m)
  unfolding store
  EachHolds-store u g each_nil = each_cons g each_nil
  EachHolds-store u g (each_cons {t} h k) = elim (Bool-cases (t == u)) [
    | inl y ↦ rw y (each_cons g k)
    | inr n ↦ rw n (each_cons h (EachHolds-store u g k))
  ]

  EachHolds-find :
      (u : ℕ) {q : Queue A} {m : List (ℕ × Queue A)}
      → EachHolds m
      → find u m ≡ some q
      → (l : List A) × Holds q l
  unfolding find
  EachHolds-find u each_nil e = absurd (grind (arith, e))
  EachHolds-find u {q} (each_cons {t} {q = r} {l} {m} h k) e =
      let g : (if t == u then some r else find u m) ≡ some q = e in
      elim (Bool-cases (t == u)) [
        | inl y ↦
            (l, subst (λ q. Holds q l) (let f : some r ≡ some q = rw y at g in grind (arith, f)) h)
        | inr n ↦ EachHolds-find u k (rw n at g)
      ]

  get-Holds :
      {q : Queue A} (l : List A) {r : A × Queue A}
      → Holds q l
      → get q ≡ returns r
      → (l' : List A) × Holds r.1 l'
  get-Holds {q} [] {r} h e =
      let f : blocks ≡ returns r = sym (get-Holds-nil h) ∙ e in absurd (grind (arith, f))
  get-Holds (x ∷ l) h e =
      let (q', f, k) = get-Holds-cons h in
      (l, subst (λ r. Holds r.1 l) (returns-injective (sym f ∙ e)) k)

  EachHolds-await_in :
      (u : ℕ) (n : QueuedNotifier A) {n' : QueuedNotifier A} {w : Option A} (o : Option (Queue A))
      → find u n.queues ≡ o
      → EachHolds n.queues
      → await_in u n o ≡ returns (w, n')
      → EachHolds n'.queues
  EachHolds-await_in u n none f k e =
      subst (λ n. EachHolds n.queues) (ap (λ r. r.1) (returns-injective e)) k
  EachHolds-await_in u n (some q) f k e =
      let (l, h) = EachHolds-find u k f in
      let (r, a, b, c) = got-returns u n (get q) e in
      subst (λ n. EachHolds n.queues) (sym c) (EachHolds-store u (get-Holds l h a).1 k)

  EachHolds-Reachable : {n : QueuedNotifier A} → Reachable n → EachHolds n.queues
  unfolding new_notifier register unregister notify_change await_change
  EachHolds-Reachable reach_new = each_nil
  EachHolds-Reachable (reach_register r) = each_cons new_queue-Holds (EachHolds-Reachable r)
  EachHolds-Reachable (reach_unregister u r) = EachHolds-remove u (EachHolds-Reachable r)
  EachHolds-Reachable {n} (reach_notify {n = m} v r e) =
      let (p, a, b) = with_queues-returns m (put_all v m.queues) e in
      let (p', c, k) = EachHolds-put_all v (EachHolds-Reachable r) in
      subst (λ n. EachHolds n.queues) (sym b) (subst EachHolds (returns-injective (sym c ∙ a)) k)
  EachHolds-Reachable (reach_await {n = m} u o r e) =
      EachHolds-await_in u m (find u m.queues) refl (EachHolds-Reachable r) e

  -- In every state that the calls lead to, `NotifyChange` returns: it waits on no listener.
  pub notify_change-Reachable :
      {n : QueuedNotifier A} (v : A)
      → Reachable n
      → (n' : QueuedNotifier A) × (notify_change v n ≡ returns n') × Reachable n'
  unfolding notify_change
  notify_change-Reachable {n} v r =
      let (m, e, k) = EachHolds-put_all v (EachHolds-Reachable r) in
      let f : notify_change v n ≡ returns (record n { queues = m }) = rw e in
      (record n { queues = m }, f, reach_notify v r f)

  get-cases :
      {q : Queue A} (l : List A)
      → Holds q l
      → ((r : A × Queue A) × (get q ≡ returns r)) ⊎ ((get q ≡ blocks) × Holds q [])
  get-cases [] h = inr (get-Holds-nil h, h)
  get-cases (x ∷ l) h = let (q', f, k) = get-Holds-cons h in inl ((x, q'), f)

  AwaitCases :
      ℕ → QueuedNotifier A → Option (Queue A) → Outcome (Option A × QueuedNotifier A) → Type 0
  AwaitCases u n o r =
      ((o ≡ none) × (r ≡ returns (none, n)))
      ⊎ ((v : A) × (n' : QueuedNotifier A) × (r ≡ returns (some v, n')))
      ⊎ ((q : Queue A) × (o ≡ some q) × Holds q [] × (r ≡ blocks))

  await_in-cases :
      (u : ℕ) (n : QueuedNotifier A) (o : Option (Queue A))
      → find u n.queues ≡ o
      → EachHolds n.queues
      → AwaitCases u n o (await_in u n o)
  unfolding AwaitCases
  await_in-cases u n none f k = inl (refl, refl)
  await_in-cases u n (some q) f k =
      let (l, h) = EachHolds-find u k f in
      elim (get-cases l h) [
        | inl (r, e) ↦ inr (inl (r.0, record n { queues = store u r.1 n.queues }, rw e))
        | inr (e, g) ↦ inr (inr (q, refl, g, rw e))
      ]

  -- In every state that the calls lead to, `AwaitChange` does one of three things: it returns
  -- false and changes nothing, for a token that is not registered; it returns a value; or it waits, and
  -- then the token is registered and its queue holds the empty list. It never panics.
  pub await_change-Reachable :
      {n : QueuedNotifier A} (u : ℕ)
      → Reachable n
      → ((find u n.queues ≡ none) × (await_change u n ≡ returns (none, n)))
        ⊎ ((v : A) × (n' : QueuedNotifier A) × (await_change u n ≡ returns (some v, n')))
        ⊎ ((q : Queue A) × (find u n.queues ≡ some q) × Holds q [] × (await_change u n ≡ blocks))
  unfolding await_change AwaitCases
  await_change-Reachable {n} u r = await_in-cases u n (find u n.queues) refl (EachHolds-Reachable r)
