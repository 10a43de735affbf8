-- ===== src/Sync/Notifier/Broadcast.antt =====
-- sync/notifier.go: the channels that wait are different and hold nothing, so that no send waits.
use chatter.Base.{
  ℕ, suc, ◌≤◌, ◌<◌, Bool, true, false, ◌||◌, List, [], ◌∷◌, ◌++◌, Option, none, some, ◌==◌,
  if◌then◌else◌, ◌≡◌, refl, sym, ◌∙◌, subst, ap, inl, inr, Bool-cases, ==_iff, arith,
}
use chatter.Sync.Queue.{returns}
use chatter.Sync.QueuedNotifier.Delivery.{returns-injective}
use chatter.Sync.Notifier.{
  Signal, Notifier, put_at, next_seq, send_all, notify_change, await_change, received,
}

-- A list of different channels from lo on, before hi, that hold nothing.
pub data Waiting {A : Type 0} (b : ℕ → Option (Signal A)) : ℕ → ℕ → List ℕ → Type 0 where
  waiting_nil : {lo hi : ℕ} → Waiting b lo hi []
  waiting_cons :
      {lo hi c : ℕ} {l : List ℕ}
      → lo ≤ c
      → c < hi
      → b c ≡ none
      → Waiting b (suc c) hi l
      → Waiting b lo hi (c ∷ l)

unfoldable pub mem : ℕ → List ℕ → Bool
mem d [] = false
mem d (c ∷ l) = (d == c) || mem d l

pub mem-snoc : (c d : ℕ) (l : List ℕ) → mem c (l ++ d ∷ []) ≡ (mem c l || (c == d))
unfolding mem
mem-snoc c d [] = ground arith
mem-snoc c d (x ∷ l) = ground (arith, mem-snoc c d l)

module _ {A : Type 0} where
  Waiting-map :
      {b b' : ℕ → Option (Signal A)} {lo hi hi' : ℕ} {l : List ℕ}
      → hi ≤ hi'
      → ((c : ℕ) → c < hi → b c ≡ none → b' c ≡ none)
      → Waiting b lo hi l
      → Waiting b' lo hi' l
  Waiting-map k f waiting_nil = waiting_nil
  Waiting-map k f (waiting_cons {c} a h e w) =
      waiting_cons a (omega arith) (f c h e) (Waiting-map k f w)

  Waiting-put_at :
      {b : ℕ → Option (Signal A)} {lo hi c : ℕ} {l : List ℕ} (x : Option (Signal A))
      → c < lo
      → Waiting b lo hi l
      → Waiting (put_at c x b) lo hi l
  unfolding put_at
  Waiting-put_at x h waiting_nil = waiting_nil
  Waiting-put_at x h (waiting_cons a k e w) =
      waiting_cons a k (ground arith) (Waiting-put_at x (omega arith) w)

  Waiting-snoc :
      {b : ℕ → Option (Signal A)} {lo hi : ℕ} {l : List ℕ}
      → lo ≤ hi
      → b hi ≡ none
      → Waiting b lo hi l
      → Waiting b lo (suc hi) (l ++ hi ∷ [])
  Waiting-snoc h e waiting_nil = waiting_cons h (omega arith) e waiting_nil
  Waiting-snoc h e (waiting_cons a k f w) =
      waiting_cons a (omega arith) f (Waiting-snoc (omega arith) e w)

  pub Waiting-mem :
      {b : ℕ → Option (Signal A)} {lo hi : ℕ} {l : List ℕ} (d : ℕ)
      → Waiting b lo hi l
      → mem d l ≡ true
      → (b d ≡ none) × (d < hi)
  unfolding mem
  Waiting-mem d waiting_nil e = absurd (ground (arith, e))
  Waiting-mem d (waiting_cons {c} {l} a k f w) e = elim (Bool-cases (d == c)) [
    | inl y ↦ let z : d ≡ c = (==_iff d c).0 y in (rw z f, rw z k)
    | inr n ↦ Waiting-mem d w (rw n at e)
  ]

  reached :
      (b : ℕ → Option (Signal A)) (d c : ℕ) (l : List ℕ) (s : Signal A)
      → (if mem d l then some s else put_at c (some s) b d)
        ≡ (if mem d (c ∷ l) then some s else b d)
  unfolding mem put_at
  reached b d c l s = ground arith

  -- A broadcast to different channels that hold nothing reaches each of them, and no other.
  send_all-Waiting :
      (l : List ℕ) {b : ℕ → Option (Signal A)} {lo hi : ℕ} (s : Signal A)
      → Waiting b lo hi l
      → (b' : ℕ → Option (Signal A)) × (send_all l s b ≡ returns b')
        × ((d : ℕ) → b' d ≡ (if mem d l then some s else b d))
  unfolding send_all mem
  send_all-Waiting [] {b} s w = (b, refl, λ d. refl)
  send_all-Waiting (c ∷ l) {b} s (waiting_cons a k e w) =
      let (b', f, g) =
        send_all-Waiting l s (Waiting-put_at {b = b} {c = c} (some s) (omega arith) w) in
      (b', rw (e, send_all) f, λ d. g d ∙ reached b d c l s)

  unfoldable pub Sound : Notifier A → Type 0
  Sound n = Waiting n.buffers 0 n.made n.wait

  -- `NotifyChange` returns, and each channel of the list now holds the new value.
  pub notify_change-Sound :
      (v : A) (n : Notifier A)
      → Sound n
      → (b : ℕ → Option (Signal A)) × (notify_change v n
          ≡ returns
              (record { seq = next_seq n.seq; val = v; wait = []; made = n.made; buffers = b }))
        × ((d : ℕ)
            → b d ≡ (
                if mem d n.wait
                then some (record { seq = next_seq n.seq; val = v })
                else n.buffers d))
  unfolding Sound notify_change
  notify_change-Sound v n w =
      let (b, e, g) = send_all-Waiting n.wait (record { seq = next_seq n.seq; val = v }) w in
      (b, rw e, g)

  pub await_change-Sound : (s : ℕ) (n : Notifier A) → Sound n → Sound (await_change s n)
  unfolding Sound await_change put_at
  await_change-Sound s n w = elim (Bool-cases (n.seq == s)) [
    | inl y ↦ rw y (
        Waiting-snoc (omega arith) (ground arith)
          (Waiting-map {hi = n.made} (omega arith) (λ c h e. ground arith) w))
    | inr x ↦ rw x (Waiting-map {hi = n.made} (omega arith) (λ c h e. ground arith) w)
  ]

  pub received-Sound :
      (c : ℕ) (n : Notifier A) {n' : Notifier A} {s : Signal A} (x : Option (Signal A))
      → Sound n
      → received c n x ≡ returns (s, n')
      → (Sound n') × (n' ≡ record n { buffers = put_at c none n.buffers })
  unfolding Sound received put_at
  received-Sound c n none w e = absurd (grind (arith, e))
  received-Sound c n (some s) w e =
      let f : record n { buffers = put_at c none n.buffers } ≡ _ =
        ap (λ r. r.1) (returns-injective e) in
      (subst Sound f (Waiting-map {hi = n.made} (omega arith) (λ c h e. ground arith) w), sym f)
