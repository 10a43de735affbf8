-- ===== src/Sync/Notifier/Reach.antt =====
-- sync/notifier.go: the states that the calls lead to, and that `NotifyChange` never waits.
use chatter.Base.{ℕ, [], none, some, if◌then◌else◌, ◌≡◌, refl, sym, ◌∙◌, subst, ap}
use chatter.Sync.Queue.{returns}
use chatter.Sync.QueuedNotifier.Delivery.{returns-injective}
use chatter.Sync.Notifier.{
  Signal, Notifier, new_notifier, put_at, next_seq, notify_change, await_change, receive,
}
use chatter.Sync.Notifier.Broadcast.{
  Waiting, waiting_nil, mem, Sound, notify_change-Sound, await_change-Sound, received-Sound,
}

-- The states that the calls lead to from a new notifier.
pub data Reachable {A : Type 0} : Notifier A → Type 0 where
  reach_new : (v : A) → Reachable (new_notifier v)
  reach_await : {n : Notifier A} (s : ℕ) → Reachable n → Reachable (await_change s n)
  reach_receive :
      {n n' : Notifier A} (c : ℕ) (s : Signal A)
      → Reachable n
      → receive c n ≡ returns (s, n')
      → Reachable n'
  reach_notify :
      {n n' : Notifier A} (v : A) → Reachable n → notify_change v n ≡ returns n' → Reachable n'

module _ {A : Type 0} where
  pub notified_state :
      (v : A) (n : Notifier A) {n' : Notifier A}
      → Sound n
      → notify_change v n ≡ returns n'
      → (n'.wait ≡ [])
        × (n'.made ≡ n.made)
        × ((d : ℕ)
            → n'.buffers d ≡ (
                if mem d n.wait
                then some (record { seq = next_seq n.seq; val = v })
                else n.buffers d))
  notified_state v n {n'} w e =
      let (b, f, g) = notify_change-Sound v n w in
      let k = returns-injective (sym f ∙ e) in
      (ap (λ n. n.wait) (sym k), ap (λ n. n.made) (sym k), λ d. ap (λ n. n.buffers d) (sym k) ∙ g d)

  pub notify-Sound :
      (v : A) (n : Notifier A) {n' : Notifier A}
      → Sound n
      → notify_change v n ≡ returns n'
      → Sound n'
  unfolding Sound
  notify-Sound v n {n'} w e =
      let (x, y, z) = notified_state v n w e in
      subst (λ l. Waiting n'.buffers 0 n'.made l) (sym x) waiting_nil

  pub Sound-Reachable : {n : Notifier A} → Reachable n → Sound n
  unfolding Sound new_notifier receive
  Sound-Reachable (reach_new v) = waiting_nil
  Sound-Reachable (reach_await {n} s r) = await_change-Sound s n (Sound-Reachable r)
  Sound-Reachable (reach_receive {n} c s r e) =
      (received-Sound c n (n.buffers c) (Sound-Reachable r) e).0
  Sound-Reachable (reach_notify {n} v r e) = notify-Sound v n (Sound-Reachable r) e

  pub received_state :
      (d : ℕ) (n : Notifier A) {n' : Notifier A} {s : Signal A}
      → Sound n
      → receive d n ≡ returns (s, n')
      → n' ≡ record n { buffers = put_at d none n.buffers }
  unfolding receive
  received_state d n w e = (received-Sound d n (n.buffers d) w e).1

  pub receive-Sound :
      (d : ℕ) (n : Notifier A) {n' : Notifier A} {s : Signal A}
      → Sound n
      → receive d n ≡ returns (s, n')
      → Sound n'
  unfolding receive
  receive-Sound d n w e = (received-Sound d n (n.buffers d) w e).0

  -- In every state that the calls lead to, `NotifyChange` returns, since no send of it waits, and the
  -- list of those that wait is empty afterwards.
  pub notify_change-returns :
      {n : Notifier A} (v : A)
      → Reachable n
      → (n' : Notifier A) × (notify_change v n ≡ returns n') × Reachable n' × (n'.wait ≡ [])
  notify_change-returns {n} v r =
      let (b, e, g) = notify_change-Sound v n (Sound-Reachable r) in
      (_, e, reach_notify v r e, refl)
