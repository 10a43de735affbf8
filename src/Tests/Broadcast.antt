-- ===== src/Tests/Broadcast.antt =====
-- sync/notifier.go: one listener that waits, and one that knows an older number.
use chatter.Base.{ℕ, [], ◌∷◌, none, some, ◌≡◌, refl}
use chatter.Sync.Queue.{returns}
use chatter.Sync.Notifier.{Notifier, new_notifier, await_change, notify_change, send_all, put_at}
use chatter.Sync.Notifier.Reach.{Reachable, reach_new, reach_await, notify_change-returns}
use chatter.Sync.Notifier.Answers.{Quiet, quiet_end, quiet_notify, answer, Quiet-await_change}

waiting_one : Reachable {A = ℕ} (await_change 0 (new_notifier 5))
waiting_one = reach_await 0 (reach_new 5)

notify_change-returns_example :
    (n : Notifier ℕ) × (notify_change 6 (await_change 0 (new_notifier 5)) ≡ returns n)
    × Reachable n
    × (n.wait ≡ [])
notify_change-returns_example = notify_change-returns 6 waiting_one

abbrev start : Notifier ℕ
start = new_notifier 5

-- The channels after one listener and two changes.
abbrev final : Notifier ℕ
final = record {
  seq = 2;
  val = 7;
  wait = [];
  made = 1;
  buffers = put_at 0 (some (record { seq = 1; val = 6 })) (put_at 0 none (λ c. none));
}

abbrev middle : Notifier ℕ
middle = record {
  seq = 1;
  val = 6;
  wait = [];
  made = 1;
  buffers = put_at 0 (some (record { seq = 1; val = 6 })) (put_at 0 none (λ c. none));
}

two_changes : Quiet 0 (await_change 0 (new_notifier 5)) (6 ∷ 7 ∷ []) final
unfolding new_notifier await_change notify_change send_all put_at
two_changes = quiet_notify {n' = middle} refl (quiet_notify {n' = final} refl quiet_end)

Quiet-await_change_example : final.buffers 0 ≡ answer 0 (new_notifier 5) (6 ∷ 7 ∷ [])
unfolding new_notifier
Quiet-await_change_example = Quiet-await_change 0 (reach_new 5) two_changes
