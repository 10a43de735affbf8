-- ===== src/Sync/Notifier.antt =====
-- sync/notifier.go: a broadcast of the last value, with a sequence number. The state is behind a
-- channel of capacity 1, so that the calls are atomic; `AwaitChange` is two steps, `await_change` up to
-- the point where it gives the state back, and `receive`.
pub mod Broadcast
pub mod Reach
pub mod Answers
use chatter.Base.{
  ℕ, suc, ◌+◌, ◌%◌, ◌^◌, Bool, true, false, List, [], ◌∷◌, ◌++◌, Option, none, some, ◌==◌,
  if◌then◌else◌,
}
use chatter.Sync.Queue.{Outcome, returns, blocks, panics}

-- A sequence number, an int64 by its bits, and the value.
pub record Signal (A : Type 0) : Type 0 where
  pub seq : ℕ
  pub val : A

-- The state, with what the channels of capacity 1 that the calls make hold. A channel is the
-- number of those made before it.
pub record Notifier (A : Type 0) : Type 0 where
  pub seq : ℕ
  pub val : A
  pub wait : List ℕ
  pub made : ℕ
  pub buffers : ℕ → Option (Signal A)

abbrev pub next_seq : ℕ → ℕ
next_seq s = (s + 1) % 2 ^ 64

module _ {A : Type 0} where
  -- `NewNotifier(initialVal)`
  unfoldable pub new_notifier : A → Notifier A
  new_notifier v = record { seq = 0; val = v; wait = []; made = 0; buffers = λ c. none }

  unfoldable pub put_at : ℕ → Option (Signal A) → (ℕ → Option (Signal A)) → ℕ → Option (Signal A)
  put_at c x b d = if d == c then x else b d

  -- The loop of `NotifyChange`: a send to a channel that is full waits.
  unfoldable pub send_all :
      List ℕ → Signal A → (ℕ → Option (Signal A)) → Outcome (ℕ → Option (Signal A))
  unfolding put_at
  send_all [] s b = returns b
  send_all (c ∷ l) s b =
      let rest = send_all l s (put_at c (some s) b) in elim (b c) [ none ↦ rest | some x ↦ blocks ]

  abbrev pub notified : A → Notifier A → Outcome (ℕ → Option (Signal A)) → Outcome (Notifier A)
  notified v n (returns b) =
      returns (record { seq = next_seq n.seq; val = v; wait = []; made = n.made; buffers = b })
  notified v n blocks = blocks
  notified v n panics = panics

  -- `n.NotifyChange(newVal)`
  unfoldable pub notify_change : A → Notifier A → Outcome (Notifier A)
  notify_change v n =
      notified v n (send_all n.wait (record { seq = next_seq n.seq; val = v }) n.buffers)

  -- `n.AwaitChange(ctx, seq)` up to its select; its channel is `n.made`.
  unfoldable pub await_change : ℕ → Notifier A → Notifier A
  unfolding put_at
  await_change s n =
      if n.seq == s
      then record n {
        wait = n.wait ++ n.made ∷ [];
        made = suc n.made;
        buffers = put_at n.made none n.buffers;
      }
      else record n {
        made = suc n.made;
        buffers = put_at n.made (some (record { seq = n.seq; val = n.val })) n.buffers;
      }

  unfoldable pub received : ℕ → Notifier A → Option (Signal A) → Outcome (Signal A × Notifier A)
  received c n none = blocks
  received c n (some s) = returns (s, record n { buffers = put_at c none n.buffers })

  -- The select of `AwaitChange` on its channel, while the context is not done.
  unfoldable pub receive : ℕ → Notifier A → Outcome (Signal A × Notifier A)
  unfolding put_at
  receive c n = received c n (n.buffers c)

  -- `n.LastChange()`
  unfoldable pub last_change : Notifier A → A × ℕ
  last_change n = (n.val, n.seq)
