-- ===== src/Sync/Notifier/Answers.antt =====
-- sync/notifier.go: what a call of `AwaitChange` receives.
use chatter.Base.{
  ℕ, ◌<◌, true, false, List, [], ◌∷◌, Option, none, some, ◌==◌, if◌then◌else◌, ◌≡◌, ◌≢◌, refl, sym,
  ◌∙◌, subst, ap, inl, inr, Bool-cases, ==_iff, arith,
}
use chatter.Sync.Queue.{returns}
use chatter.Sync.Notifier.{Signal, Notifier, put_at, next_seq, notify_change, await_change, receive}
use chatter.Sync.Notifier.Broadcast.{mem, mem-snoc, Waiting-mem, Sound, await_change-Sound}
use chatter.Sync.Notifier.Reach.{
  Reachable, notified_state, notify-Sound, Sound-Reachable, received_state, receive-Sound,
}

-- A run of calls in which nobody reads the channel c, with the values that it notifies.
pub data Quiet {A : Type 0} (c : ℕ) : Notifier A → List A → Notifier A → Type 0 where
  quiet_end : {n : Notifier A} → Quiet c n [] n
  quiet_await :
      {n m : Notifier A} {l : List A} (s : ℕ) → Quiet c (await_change s n) l m → Quiet c n l m
  quiet_receive :
      {n n' m : Notifier A} {l : List A} {d : ℕ} {s : Signal A}
      → d ≢ c
      → receive d n ≡ returns (s, n')
      → Quiet c n' l m
      → Quiet c n l m
  quiet_notify :
      {n n' m : Notifier A} {l : List A} {v : A}
      → notify_change v n ≡ returns n'
      → Quiet c n' l m
      → Quiet c n (v ∷ l) m

-- What the caller is to find on its channel: the present value, where the number it knows is
-- another one, and else the first of the values that are notified from now on.
abbrev pub first_change : {A : Type 0} → ℕ → List A → Option (Signal A)
first_change s [] = none
first_change s (v ∷ l) = some (record { seq = next_seq s; val = v })

unfoldable pub answer : {A : Type 0} → ℕ → Notifier A → List A → Option (Signal A)
answer s n l = if n.seq == s then first_change s l else some (record { seq = n.seq; val = n.val })

module _ {A : Type 0} where
  -- The channel c was made, nobody is to write to it, and it holds x.
  record Settled (c : ℕ) (n : Notifier A) (x : Signal A) : Type 0 where
    answered : mem c n.wait ≡ false
    exists : c < n.made
    holds : n.buffers c ≡ some x

  Settled-await :
      {c : ℕ} {n : Notifier A} {x : Signal A} (s : ℕ)
      → Settled c n x
      → Settled c (await_change s n) x
  unfolding await_change put_at
  Settled-await {c} {n} s k =
      let f = k.answered in
      let g = k.exists in
      let h = k.holds in
      elim (Bool-cases (n.seq == s)) [
        | inl y ↦ rw y (record {
          answered = mem-snoc c n.made n.wait ∙ ground arith;
          exists = omega arith;
          holds = ground arith;
        })
        | inr z ↦ rw z (record { answered = f; exists = omega arith; holds = ground arith })
      ]

  Settled-receive :
      {c d : ℕ} {n n' : Notifier A} {x s : Signal A}
      → Sound n
      → d ≢ c
      → receive d n ≡ returns (s, n')
      → Settled c n x
      → Settled c n' x
  unfolding put_at
  Settled-receive {c} {d} {n} {n'} {x} w ne e k =
      let f = k.holds in
      subst (λ n. Settled c n x) (sym (received_state d n w e))
        (record { answered = k.answered; exists = k.exists; holds = ground arith })

  Settled-notify :
      {c : ℕ} {n n' : Notifier A} {x : Signal A} (v : A)
      → Sound n
      → notify_change v n ≡ returns n'
      → Settled c n x
      → Settled c n' x
  unfolding mem
  Settled-notify {c} {n} v w e k =
      let (a, b, g) = notified_state v n w e in
      record { answered = rw a refl; exists = rw b k.exists; holds = g c ∙ rw k.answered k.holds }

  Quiet-Settled :
      {c : ℕ} {n m : Notifier A} {l : List A} {x : Signal A}
      → Sound n
      → Settled c n x
      → Quiet c n l m
      → m.buffers c ≡ some x
  Quiet-Settled w k quiet_end = k.holds
  Quiet-Settled {n} w k (quiet_await s q) =
      Quiet-Settled (await_change-Sound s n w) (Settled-await s k) q
  Quiet-Settled {n} w k (quiet_receive {d} ne g q) =
      Quiet-Settled (receive-Sound d n w g) (Settled-receive w ne g k) q
  Quiet-Settled {n} w k (quiet_notify {v} g q) =
      Quiet-Settled (notify-Sound v n w g) (Settled-notify v w g k) q

  Awaited-await :
      (c : ℕ) (n : Notifier A) (s : ℕ)
      → mem c n.wait ≡ true
      → (mem c (await_change s n).wait ≡ true) × ((await_change s n).seq ≡ n.seq)
  unfolding await_change
  Awaited-await c n s f = elim (Bool-cases (n.seq == s)) [
    | inl y ↦ rw y (mem-snoc c n.made n.wait ∙ ground arith, refl)
    | inr z ↦ rw z (f, refl)
  ]

  Awaited-notify :
      {c : ℕ} (n : Notifier A) {n' : Notifier A} (v : A)
      → Sound n
      → notify_change v n ≡ returns n'
      → mem c n.wait ≡ true
      → Settled c n' (record { seq = next_seq n.seq; val = v })
  unfolding mem Sound
  Awaited-notify {c} n v w e f =
      let (a, b, g) = notified_state v n w e in
      record { answered = rw a refl; exists = rw b (Waiting-mem c w f).1; holds = g c ∙ rw f refl }

  Quiet-Awaited :
      {c : ℕ} {n m : Notifier A} {l : List A}
      → Sound n
      → mem c n.wait ≡ true
      → Quiet c n l m
      → m.buffers c ≡ first_change n.seq l
  unfolding Sound
  Quiet-Awaited {c} w f quiet_end = (Waiting-mem c w f).0
  Quiet-Awaited {c} {n} {l} w f (quiet_await s q) =
      let (g, h) = Awaited-await c n s f in
      Quiet-Awaited (await_change-Sound s n w) g q ∙ ap (λ z. first_change z l) h
  Quiet-Awaited {c} {n} {l} w f (quiet_receive {d} ne g q) =
      let e = received_state d n w g in
      Quiet-Awaited (receive-Sound d n w g) (ap (λ n. mem c n.wait) e ∙ f) q
      ∙ ap (λ n. first_change n.seq l) e
  Quiet-Awaited {n} w f (quiet_notify {v} g q) =
      Quiet-Settled (notify-Sound v n w g) (Awaited-notify n v w g f) q

  made-fresh : (n : Notifier A) → Sound n → mem n.made n.wait ≡ false
  unfolding Sound
  made-fresh n w = elim (Bool-cases (mem n.made n.wait)) [
    | inl y ↦ let h = (Waiting-mem n.made w y).1 in absurd (omega arith)
    | inr z ↦ z
  ]

  -- After a call of `AwaitChange` with the number s, and until the caller reads its channel,
  -- whatever calls come in between: where s is not the present number, the channel holds the value and
  -- the number that were present at the call; where it is, the channel is empty up to the next
  -- `NotifyChange` and then holds that one's value with the number after s.
  pub Quiet-await_change :
      {n m : Notifier A} {l : List A} (s : ℕ)
      → Reachable n
      → Quiet n.made (await_change s n) l m
      → m.buffers n.made ≡ answer s n l
  unfolding answer await_change put_at
  Quiet-await_change {n} {m} {l} s r q =
      let w = Sound-Reachable r in
      let u = await_change-Sound s n w in
      elim (Bool-cases (n.seq == s)) [
        | inl y ↦
            let e : n.seq ≡ s = (==_iff n.seq s).0 y in
            Quiet-Awaited u (rw y (mem-snoc n.made n.made n.wait ∙ ground arith)) q ∙ rw (y, e) refl
        | inr z ↦
            Quiet-Settled {x = record { seq = n.seq; val = n.val }} u
              (rw z
                (record { answered = made-fresh n w; exists = omega arith; holds = ground arith }))
              q
            ∙ rw z refl
      ]
