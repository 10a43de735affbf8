-- ===== src/Tests/Sync.antt =====
-- sync/: short runs of a queue and of the two notifiers.
use chatter.Base.{ℕ, false, List, [], ◌∷◌, ◌++◌, none, some, ◌≡◌, refl, ◌⊎◌}
use chatter.Sync.Queue.{
  Queue, returns, blocks, new_queue, put, get, Holds, holds_some, new_queue-Holds, put-Holds,
  get-Holds-cons,
}
use chatter.Sync.QueuedNotifier.{
  QueuedNotifier, new_notifier, register, find, store, put_all, notify_change, await_change,
}
use chatter.Sync.QueuedNotifier.Delivery.{
  Run, run_end, run_notify, run_await, Pending, Run-register,
}
use chatter.Sync.QueuedNotifier.Progress.{
  Reachable, reach_new, reach_register, notify_change-Reachable, await_change-Reachable,
}

put-Holds_example : (q : Queue ℕ) × (put new_queue 5 ≡ returns q) × Holds q ([] ++ 5 ∷ [])
put-Holds_example = put-Holds 5 new_queue-Holds

abbrev two : Queue ℕ
two = record { items = some (3 ∷ 4 ∷ []); empty = false }

get-Holds-cons_example : (q : Queue ℕ) × (get two ≡ returns (3, q)) × Holds q (4 ∷ [])
get-Holds-cons_example = get-Holds-cons {q = two} (holds_some refl refl)

abbrev queue : List ℕ → Queue ℕ
queue l = record { items = some l; empty = false }

abbrev listening : Queue ℕ → QueuedNotifier ℕ
listening q = record { queues = (0, q) ∷ []; next = 1 }

delivered : Run 0 (register {A = ℕ} new_notifier) (7 ∷ []) (7 ∷ 8 ∷ []) (listening (queue (8 ∷ [])))
unfolding new_notifier new_queue register notify_change put_all await_change find store put get
delivered = run_notify {n' = listening (queue (7 ∷ []))} refl (
    run_notify {n' = listening (queue (7 ∷ 8 ∷ []))} refl
      (run_await {n' = listening (queue (8 ∷ []))} refl run_end))

Run-register_example :
    (l : List ℕ) × Pending 0 (listening (queue (8 ∷ []))) l × (7 ∷ 8 ∷ [] ≡ 7 ∷ [] ++ l)
unfolding new_notifier
Run-register_example = Run-register new_notifier delivered

after_one : Reachable (register {A = ℕ} new_notifier)
after_one = reach_register reach_new

notify_change-Reachable_example :
    (n : QueuedNotifier ℕ) × (notify_change 7 (register new_notifier) ≡ returns n) × Reachable n
notify_change-Reachable_example = notify_change-Reachable 7 after_one

await_change-Reachable_example :
    ((find 0 (register {A = ℕ} new_notifier).queues ≡ none)
      × (await_change 0 (register {A = ℕ} new_notifier) ≡ returns (none, register new_notifier)))
    ⊎ ((v : ℕ) × (n : QueuedNotifier ℕ) × (await_change 0 (register new_notifier)
          ≡ returns (some v, n)))
    ⊎ ((q : Queue ℕ) × (find 0 (register new_notifier).queues ≡ some q)
        × Holds q []
        × (await_change {A = ℕ} 0 (register new_notifier) ≡ blocks))
await_change-Reachable_example = await_change-Reachable 0 after_one
