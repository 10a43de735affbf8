-- ===== src/Services/Manager/Serving.antt =====
-- chatterd/services/service_manager.go: which services run behind a round of the loop.
use chatter.Base.{false, List, [], ◌∷◌, ◌++◌, Option, none, some, Str, ◌≡◌, refl, ◌⊎◌, Permᴰ}
use chatter.Sync.Queue.{returns}
use chatter.Config.Service.{ServiceId}
use chatter.Config.Graph.{keys}
use chatter.Config.Graph.Visits.{Within}
use chatter.Config.Bootstraps.{Config, Bootstrap, bootstraps, copy_config, service_graph}
use chatter.Config.Bootstraps.Plan.{names as ids}
use chatter.Services.Manager.{
  Controllers, names, ids_of, Phase, idle, left, waiting, starting, failed, in_channel, System,
  running_services,
}
use chatter.Services.Manager.Steps.{Steps}

-- The order of the list is one order.
pub Perm_refl : {A : Type 0} (l : List A) → Permᴰ l l
Perm_refl [] = Permᴰ.nil
Perm_refl (x ∷ l) = Permᴰ.cons refl (Perm_refl l)

-- The bootstraps are those of the configuration's copy.
pub data PlanOf (conf : Config) (bs : List Bootstrap) : Type 0 where
  plan_of :
      (order : List ServiceId)
      → Within order (keys (service_graph (copy_config conf)).nodes)
      → Within (keys (service_graph (copy_config conf)).nodes) order
      → bootstraps order (copy_config conf) ≡ some bs
      → PlanOf conf bs

-- What runs between two rounds: nothing, or what the last configuration plans.
data Rests {S : Type 0} (c : Controllers S) : Option Config → Type 0 where
  nothing_runs : c ≡ [] → Rests c none
  plan_runs :
      {conf : Config} (bs : List Bootstrap)
      → PlanOf conf bs
      → ids_of c ≡ ids bs
      → Rests c (some conf)

-- The controllers that are there in each phase.
data Serves {S : Type 0} {E : Type 0} (c : Controllers S) : Phase E → Type 0 where
  rests : {last : Option Config} → Rests c last → Serves c (idle last)
  has_left : {last : Option Config} → Rests c last → Serves c (left last)
  awaits : {conf : Config} {ns : List Str} → names c ≡ ns → Serves c (waiting conf ns)
  begun :
      {conf : Config} {bs : List Bootstrap} (all : List Bootstrap)
      → PlanOf conf all
      → ids_of c ++ ids bs ≡ ids all
      → Serves c (starting conf bs)
  gone_wrong : {e : _} → Serves c (failed e)

-- What a call of `RunningServices` comes to: it waits where the state is not in its channel; it returns
-- nothing before the first configuration, and otherwise the services that the last configuration
-- plans, in some order.
pub data Answers {S : Type 0} {E : Type 0} (range : Controllers S → Controllers S) (t : System S E)
    : Type 0 where
  waits : in_channel t.phase ≡ false → Answers range t
  none_yet :
      (t.phase ≡ idle none) ⊎ (t.phase ≡ left none)
      → running_services range t ≡ returns []
      → Answers range t
  in_effect :
      (conf : Config) (bs : List Bootstrap) (l : List ServiceId)
      → (t.phase ≡ idle (some conf)) ⊎ (t.phase ≡ left (some conf))
      → PlanOf conf bs
      → running_services range t ≡ returns l
      → Permᴰ l (ids bs)
      → Answers range t
