-- ===== src/Services/Manager/Stuck.antt =====
-- chatterd/services/service_manager.go: the states that the manager does not leave.
use chatter.Base.{
  Bool, true, false, List, [], ◌∷◌, some, if◌then◌else◌, Str, str_eq, str_eq_iff, str_eq_refl, ◌≡◌,
  refl, sym, subst, Bool-cases, some-injective, some-ne-none, ap, ◌∙◌, inl, inr, At, head, tail,
  arith,
}
use chatter.Sync.Queue.{blocks}
use chatter.Config.Service.{ServiceId}
use chatter.Config.Bootstraps.{Config}
use chatter.Services.Manager.{
  Place, calls_get, works, ended, ServiceController, Builders, Controllers, controller_of,
  put_controller, delete, Phase, idle, left, waiting, starting, failed, in_channel, names, stop_all,
  System, get, running_services,
}
use chatter.Services.Manager.Steps.{
  at_place, Step, receives, waited, begins, starts, fails, puts_back, leaves, got, ends, breaks,
  cancels, Steps, stays, then_step,
}

module _ {S : Type 0} where
  -- The laws of the map of the controllers.
  pub controller_of-put :
      (n k : Str) (x : ServiceController S) (m : Controllers S)
      → controller_of (put_controller n x m) k ≡ (if str_eq n k then some x else controller_of m k)
  unfolding controller_of put_controller
  controller_of-put n k x [] = refl
  controller_of-put n k x ((j, y) ∷ m) =
      ground (arith, controller_of-put n k x m, str_eq_iff j n, str_eq_iff j k, str_eq_iff n k)

  pub controller_of-delete :
      (n k : Str) (m : Controllers S)
      → str_eq n k ≡ false
      → controller_of (delete n m) k ≡ controller_of m k
  unfolding controller_of delete
  controller_of-delete n k [] h = refl
  controller_of-delete n k ((j, y) ∷ m) h =
      ground (arith, controller_of-delete n k m h, str_eq_iff j n, str_eq_iff j k, str_eq_iff n k)

  -- A service of the map is among its names, and stopping all of them keeps it.
  names-At :
      (n : Str) (m : Controllers S) {x : ServiceController S}
      → controller_of m n ≡ some x
      → At n (names m)
  unfolding controller_of
  names-At n [] e = absurd (some-ne-none (sym e))
  names-At n ((j, y) ∷ m) e = elim (Bool-cases (str_eq j n)) [
    | inl t ↦ rw ((str_eq_iff j n).0 t) head
    | inr f ↦ tail (names-At n m (rw f at e))
  ]

  stop_all-controller :
      (n : Str) (m : Controllers S) {x : ServiceController S}
      → controller_of m n ≡ some x
      → controller_of (stop_all m) n ≡ some (record x { cancelled = true })
  unfolding controller_of
  stop_all-controller n [] e = absurd (some-ne-none (sym e))
  stop_all-controller n ((j, y) ∷ m) {x} e = elim (Bool-cases (str_eq j n)) [
    | inl t ↦ let same : some y ≡ some x = rw t at e in rw (t, some-injective same) refl
    | inr f ↦ rw f (stop_all-controller n m (rw f at e))
  ]

-- The manager waits for the end of a service that has not come through its call of `Get` yet.
pub record Stuck {S : Type 0} {E : Type 0} (n : Str) (s : System S E) : Type 0 where
  pub conf : Config
  pub awaited : List Str
  pub in_wait : s.phase ≡ waiting conf awaited
  pub among : At n awaited
  pub controller : ServiceController S
  pub there : controller_of s.controllers n ≡ some controller
  pub before_get : controller.place ≡ calls_get

waiting-injective :
    {E : Type 0} {c d : Config} {ms ns : List Str}
    → ◌≡◌ {A = Phase E} (waiting c ms) (waiting d ns)
    → ms ≡ ns
waiting-injective e = cc

At-tail : {n m : Str} {ns : List Str} → str_eq m n ≡ false → At n (m ∷ ns) → At n ns
At-tail h head = absurd (grind (arith, h, str_eq_refl _))
At-tail h (tail p) = p

not_At_nil : {n : Str} → ¬ (At n [])
not_At_nil a = elim a [ ]

abbrev awaits : {E : Type 0} → Phase E → Bool
awaits (waiting conf ns) = true
awaits (idle last) = false
awaits (left last) = false
awaits (starting conf bs) = false
awaits (failed e) = false

not_awaits :
    {E : Type 0} (p : Phase E) {c : Config} {ns : List Str}
    → awaits p ≡ false
    → ¬ (p ≡ waiting c ns)
not_awaits p f e = let t : awaits p ≡ true = rw e refl in absurd (grind (arith, t, f))

not_in_channel :
    {E : Type 0} (p : Phase E) {c : Config} {ns : List Str}
    → in_channel p ≡ true
    → ¬ (p ≡ waiting c ns)
not_in_channel p f e = let t : in_channel p ≡ false = rw e refl in absurd (grind (arith, t, f))

module _ {S : Type 0} where
  -- Two services at different places have different names.
  apart :
      (m n : Str) (c : Controllers S) {x y : ServiceController S} (q : Place)
      → controller_of c m ≡ some x
      → x.place ≡ q
      → controller_of c n ≡ some y
      → y.place ≡ calls_get
      → ¬ (q ≡ calls_get)
      → str_eq m n ≡ false
  apart m n c {x} {y} q e a f b ne = elim (Bool-cases (str_eq m n)) [
    | inr ne' ↦ ne'
    | inl eq' ↦
        let same = (str_eq_iff m n).0 eq' in
        let f' : controller_of c m ≡ some y = rw same f in
        let xy : x ≡ y = some-injective (sym e ∙ f') in
        absurd (ne (sym a ∙ ap (λ (z : ServiceController S). z.place) xy ∙ b))
  ]

module _ {S : Type 0} {E : Type 0} (n : Str) where
  -- A step of another service.
  Stuck-put :
      {p : Phase E} {c : Controllers S} {d : Bool} (m : Str) (x : ServiceController S) (d' : Bool)
      → Stuck n (record { phase = p; controllers = c; done = d })
      → str_eq m n ≡ false
      → Stuck n (record { phase = p; controllers = put_controller m x c; done = d' })
  Stuck-put {p} {c} m x d' k ne = record {
    conf = k.conf;
    awaited = k.awaited;
    in_wait = k.in_wait;
    among = k.among;
    controller = k.controller;
    there = rw (controller_of-put m n x c, ne) k.there;
    before_get = k.before_get;
  }

module _ {S : Type 0} {E : Type 0} {builders : Builders S E} {first : S → Place} (n : Str) where
  Stuck-Step : {s t : System S E} → Step builders first s t → Stuck n s → Stuck n t
  Stuck-Step (receives conf) k = absurd (not_awaits _ refl k.in_wait)
  Stuck-Step (waited {conf} {n = m} {ns} {c} {d} {x} e y) k =
      let ne = apart m n c ended e y k.there k.before_get (λ z. cc) in
      record {
        conf = conf;
        awaited = ns;
        in_wait = refl;
        among = At-tail ne (subst (At n) (sym (waiting-injective k.in_wait)) k.among);
        controller = k.controller;
        there = rw (controller_of-delete m n c ne) k.there;
        before_get = k.before_get;
      }
  Stuck-Step (begins order v w e) k =
      absurd (not_At_nil (subst (At n) (sym (waiting-injective k.in_wait)) k.among))
  Stuck-Step (starts e) k = absurd (not_awaits _ refl k.in_wait)
  Stuck-Step (fails e) k = absurd (not_awaits _ refl k.in_wait)
  Stuck-Step puts_back k = absurd (not_awaits _ refl k.in_wait)
  Stuck-Step leaves k = absurd (not_awaits _ refl k.in_wait)
  Stuck-Step (got m e y i) k = absurd (not_in_channel _ i k.in_wait)
  Stuck-Step (ends {c} {d} m {x} e y z) k =
      Stuck-put n m (at_place ended x) d k (apart m n c works e y k.there k.before_get (λ w. cc))
  Stuck-Step (breaks {c} m {x} e y) k =
      Stuck-put n m (at_place ended x) true k (apart m n c works e y k.there k.before_get (λ w. cc))
  Stuck-Step cancels k = record {
    conf = k.conf;
    awaited = k.awaited;
    in_wait = k.in_wait;
    among = k.among;
    controller = k.controller;
    there = k.there;
    before_get = k.before_get;
  }

  Stuck-Steps : {s t : System S E} → Steps builders first s t → Stuck n s → Stuck n t
  Stuck-Steps stays k = k
  Stuck-Steps (then_step a r) k = Stuck-Steps r (Stuck-Step a k)

  -- A configuration that comes before a service got through its call of Get stops the manager for
  -- good: whatever steps follow, also where the context ends, it waits for that service, which waits
  -- for the state that the manager holds, and every call of Get or RunningServices blocks.
  pub receives-Stuck :
      (conf : Config) (c : Controllers S) {d : Bool} {x : ServiceController S}
      → controller_of c n ≡ some x
      → x.place ≡ calls_get
      → {t : System S E}
      → Steps builders first
          (record { phase = waiting conf (names c); controllers = stop_all c; done = d })
          t
      → Stuck n t
        × ((id : ServiceId) → get id t ≡ blocks)
        × ((range : Controllers S → Controllers S) → running_services range t ≡ blocks)
  unfolding get running_services
  receives-Stuck conf c {d} {x} e y r =
      let k = Stuck-Steps r (record {
        conf = conf;
        awaited = names c;
        in_wait = refl;
        among = names-At n c e;
        controller = record x { cancelled = true };
        there = stop_all-controller n c e;
        before_get = y;
      }) in
      (k, λ id. rw k.in_wait refl, λ range. rw k.in_wait refl)
