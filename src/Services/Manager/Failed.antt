-- ===== src/Services/Manager/Failed.antt =====
-- chatterd/services/service_manager.go: a service that does not start.
use chatter.Base.{
  true, false, ◌≡◌, refl, sym, subst, Bool, List, Option, none, some, some-ne-none, ap, ◌∙◌, Any,
  here, there, Option-cases, inl, inr, arith,
}
use chatter.Base.Result.{ok, err}
use chatter.Config.Bootstraps.{Config, Bootstrap}
use chatter.Sync.Queue.{blocks}
use chatter.Config.Service.{ServiceId}
use chatter.Services.Manager.{
  Place, Error, Builders, Controllers, builder_of, controller_of, start, Phase, idle, left, waiting,
  starting, failed, in_channel, System, get, running_services,
}
use chatter.Services.Manager.Steps.{
  Step, receives, waited, begins, starts, fails, puts_back, leaves, got, ends, breaks, cancels,
  Steps, stays, then_step,
}

abbrev is_failed : {E : Type 0} → Phase E → Bool
is_failed (failed e) = true
is_failed (idle last) = false
is_failed (left last) = false
is_failed (waiting conf ns) = false
is_failed (starting conf bs) = false

not_failed : {E : Type 0} (p : Phase E) {e : Error E} → is_failed p ≡ false → ¬ (p ≡ failed e)
not_failed p f k = let t : is_failed p ≡ true = rw k refl in absurd (grind (arith, t, f))

failed-shut : {E : Type 0} (p : Phase E) {e : Error E} → in_channel p ≡ true → ¬ (p ≡ failed e)
failed-shut p f k = let t : in_channel p ≡ false = rw k refl in absurd (grind (arith, t, f))

-- The services still to be started, if the goroutine starts any.
abbrev to_start : {E : Type 0} → Phase E → Option (List Bootstrap)
to_start (starting conf bs) = some bs
to_start (idle last) = none
to_start (left last) = none
to_start (waiting conf ns) = none
to_start (failed e) = none

not_starting :
    {E : Type 0} (p : Phase E) {conf : Config} {bs : List Bootstrap}
    → to_start p ≡ none
    → ¬ (p ≡ starting conf bs)
not_starting p f k = absurd (some-ne-none (sym (ap to_start k) ∙ f))

starting-injective :
    {E : Type 0} {c d : Config} {bs cs : List Bootstrap}
    → ◌≡◌ {A = Phase E} (starting c bs) (starting d cs)
    → bs ≡ cs
starting-injective e = cc

starting-shut :
    {E : Type 0} (p : Phase E) {conf : Config} {bs : List Bootstrap}
    → in_channel p ≡ true
    → ¬ (p ≡ starting conf bs)
starting-shut p f k = let t : in_channel p ≡ false = rw k refl in absurd (grind (arith, t, f))

-- The type of the service has no builder, or its builder returns an error.
pub data Refused {S : Type 0} {E : Type 0} (builders : Builders S E) (b : Bootstrap) : Type 0 where
  no_builder : builder_of builders b.id.service_type ≡ none → Refused builders b
  no_service :
      {fn : _} {e : E}
      → builder_of builders b.id.service_type ≡ some fn
      → fn b.config ≡ err e
      → Refused builders b

-- The goroutine of `Run` has failed, or is on its way to a service that does not start.
pub data Doomed {S : Type 0} {E : Type 0} (builders : Builders S E) (s : System S E) : Type 0 where
  has_failed : {e : Error E} → s.phase ≡ failed e → Doomed builders s
  will_fail :
      {conf : Config} {bs : List Bootstrap}
      → s.phase ≡ starting conf bs
      → Any (Refused builders) bs
      → Doomed builders s

module _ {S : Type 0} {E : Type 0} {builders : Builders S E} where
  -- Neither a service without a builder nor one whose builder fails gets started.
  start-Refused :
      (first : S → Place) (b : Bootstrap) (c : Controllers S) {c' : Controllers S}
      → Refused builders b
      → ¬ (start builders first b c ≡ ok c')
  unfolding start
  start-Refused first b c r e = elim (Option-cases (controller_of c b.id.name)) [
    | inr (x, t) ↦ absurd (grind (arith, rw t at e))
    | inl free ↦ elim r [
      | no_builder n ↦ absurd (grind (arith, rw (free, n) at e))
      | no_service y z ↦ absurd (grind (arith, rw (free, y, z) at e))
    ]
  ]

  Doomed-shut : {s : System S E} → Doomed builders s → in_channel s.phase ≡ false
  Doomed-shut (has_failed k) = rw k refl
  Doomed-shut (will_fail k r) = rw k refl

module _ {S : Type 0} {E : Type 0} {builders : Builders S E} {first : S → Place} where
  failed-Step :
      {s t : System S E} {e : Error E}
      → Step builders first s t
      → s.phase ≡ failed e
      → t.phase ≡ failed e
  failed-Step (receives conf) k = absurd (not_failed _ refl k)
  failed-Step (waited e y) k = absurd (not_failed _ refl k)
  failed-Step (begins order v w e) k = absurd (not_failed _ refl k)
  failed-Step (starts e) k = absurd (not_failed _ refl k)
  failed-Step (fails e) k = absurd (not_failed _ refl k)
  failed-Step puts_back k = absurd (not_failed _ refl k)
  failed-Step leaves k = absurd (not_failed _ refl k)
  failed-Step (got m e y i) k = absurd (failed-shut _ i k)
  failed-Step (ends m e y z) k = k
  failed-Step (breaks m e y) k = k
  failed-Step cancels k = k

  Doomed-Step : {s t : System S E} → Step builders first s t → Doomed builders s → Doomed builders t
  Doomed-Step a (has_failed k) = has_failed (failed-Step a k)
  Doomed-Step (receives conf) (will_fail k r) = absurd (not_starting _ refl k)
  Doomed-Step (waited e y) (will_fail k r) = absurd (not_starting _ refl k)
  Doomed-Step (begins order v w e) (will_fail k r) = absurd (not_starting _ refl k)
  Doomed-Step (starts {b = b} {c = c} e) (will_fail k r) =
      elim (subst (Any (Refused builders)) (sym (starting-injective k)) r) [
        | here h ↦ absurd (start-Refused first b c h e)
        | there h ↦ will_fail refl h
      ]
  Doomed-Step (fails e) (will_fail k r) = has_failed refl
  Doomed-Step puts_back (will_fail k r) =
      elim (subst (Any (Refused builders)) (sym (starting-injective k)) r) [ ]
  Doomed-Step leaves (will_fail k r) = absurd (not_starting _ refl k)
  Doomed-Step (got m e y i) (will_fail k r) = absurd (starting-shut _ i k)
  Doomed-Step (ends m e y z) (will_fail k r) = will_fail k r
  Doomed-Step (breaks m e y) (will_fail k r) = will_fail k r
  Doomed-Step cancels (will_fail k r) = will_fail k r

  Doomed-Steps :
      {s t : System S E} → Steps builders first s t → Doomed builders s → Doomed builders t
  Doomed-Steps stays k = k
  Doomed-Steps (then_step a r) k = Doomed-Steps r (Doomed-Step a k)

  -- Where a service among those that are still to be started has no builder, or its builder returns an
  -- error, the state of the manager is lost: in every state that follows, the goroutine is still
  -- starting services, with such a service to come, or has failed, and every call of Get or
  -- RunningServices blocks.
  pub starting-Doomed :
      {s t : System S E} {conf : Config} {bs : List Bootstrap}
      → s.phase ≡ starting conf bs
      → Any (Refused builders) bs
      → Steps builders first s t
      → Doomed builders t
        × ((id : ServiceId) → get id t ≡ blocks)
        × ((range : Controllers S → Controllers S) → running_services range t ≡ blocks)
  unfolding get running_services
  starting-Doomed k r a =
      let d = Doomed-Steps a (will_fail k r) in
      (d, λ id. rw (Doomed-shut d) refl, λ range. rw (Doomed-shut d) refl)
