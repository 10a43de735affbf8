-- ===== src/Sync/QueuedNotifier.antt =====
-- sync/queued_notifier.go: each registered listener has a queue of its own. The state is behind a
-- channel of capacity 1, so the calls are atomic and come one after the other.
pub mod Delivery
pub mod Progress
use chatter.Base.{ℕ, suc, Bool, true, false, List, [], ◌∷◌, Option, none, some, ◌==◌, if◌then◌else◌}
use chatter.Sync.Queue.{Queue, Outcome, returns, blocks, panics, new_queue, put, get}

-- The map from tokens to queues; a token is the number of registrations before it.
pub record QueuedNotifier (A : Type 0) : Type 0 where
  pub queues : List (ℕ × Queue A)
  pub next : ℕ

module _ {A : Type 0} where
  unfoldable pub new_notifier : QueuedNotifier A
  new_notifier = record { queues = []; next = 0 }

  unfoldable pub find : ℕ → List (ℕ × Queue A) → Option (Queue A)
  find t [] = none
  find t ((u, q) ∷ m) = if u == t then some q else find t m

  unfoldable pub store : ℕ → Queue A → List (ℕ × Queue A) → List (ℕ × Queue A)
  store t q [] = (t, q) ∷ []
  store t q ((u, r) ∷ m) = if u == t then (t, q) ∷ m else (u, r) ∷ store t q m

  unfoldable pub remove : ℕ → List (ℕ × Queue A) → List (ℕ × Queue A)
  remove t [] = []
  remove t ((u, r) ∷ m) = if u == t then remove t m else (u, r) ∷ remove t m

  -- `n.Register()`
  unfoldable pub register : QueuedNotifier A → QueuedNotifier A
  register n = record { queues = (n.next, new_queue) ∷ n.queues; next = suc n.next }

  -- `n.Unregister(t)`
  unfoldable pub unregister : ℕ → QueuedNotifier A → QueuedNotifier A
  unregister t n = record n { queues = remove t n.queues }

  abbrev pub put_in :
      Outcome (List (ℕ × Queue A)) → ℕ → Outcome (Queue A) → Outcome (List (ℕ × Queue A))
  put_in (returns m) t (returns q) = returns ((t, q) ∷ m)
  put_in (returns m) t o = blocks
  put_in o t q = o

  -- The loop of `NotifyChange`: it ends if each `Put` returns.
  unfoldable pub put_all : A → List (ℕ × Queue A) → Outcome (List (ℕ × Queue A))
  put_all v [] = returns []
  put_all v ((t, q) ∷ m) = put_in (put_all v m) t (put q v)

  abbrev pub with_queues :
      QueuedNotifier A → Outcome (List (ℕ × Queue A)) → Outcome (QueuedNotifier A)
  with_queues n (returns m) = returns (record n { queues = m })
  with_queues n blocks = blocks
  with_queues n panics = panics

  -- `n.NotifyChange(v)`
  unfoldable pub notify_change : A → QueuedNotifier A → Outcome (QueuedNotifier A)
  notify_change v n = with_queues n (put_all v n.queues)

  abbrev pub got :
      ℕ → QueuedNotifier A → Outcome (A × Queue A) → Outcome (Option A × QueuedNotifier A)
  got t n (returns r) = returns (some r.0, record n { queues = store t r.1 n.queues })
  got t n blocks = blocks
  got t n panics = panics

  abbrev pub await_in :
      ℕ → QueuedNotifier A → Option (Queue A) → Outcome (Option A × QueuedNotifier A)
  await_in t n none = returns (none, n)
  await_in t n (some q) = got t n (get q)

  -- `n.AwaitChange(ctx, t)` while the context is not done: the value, or none for a token that is
  -- not registered.
  unfoldable pub await_change : ℕ → QueuedNotifier A → Outcome (Option A × QueuedNotifier A)
  await_change t n = await_in t n (find t n.queues)
