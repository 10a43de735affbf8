-- ===== src/Services/Manager.antt =====
-- chatterd/services/service_manager.go: the services that run, and the loop that replaces them when a
-- configuration comes. The map of the controllers is the list of its entries, in the order of `range`.
pub mod Steps
pub mod Stuck
pub mod Failed
pub mod Serving
use chatter.Base.{
  ℕ, Bool, true, false, List, [], ◌∷◌, Option, none, some, ◌==◌, if◌then◌else◌, Str, str_eq,
}
use chatter.Base.Result.{Result, ok, err, ◌>>=◌}
use chatter.Sync.Queue.{Outcome, returns, blocks}
use chatter.Config.Service.{ServiceId, ServiceType}
use chatter.Config.Bootstraps.{Config, ProtocolConfig, Bootstrap}

-- Where the goroutine of a service is: before the call of `Get` with which its `Run` begins, behind
-- it, or at its end, where the channel `done` is closed.
pub data Place : Type 0 where
  calls_get works ended : Place

-- `ServiceController`; `cancelled` tells whether `cancel` was called.
pub record ServiceController (S : Type 0) : Type 0 where
  pub service : S
  pub id : ServiceId
  pub cancelled : Bool
  pub place : Place

pub data Error (E : Type 0) : Type 0 where
  already_registered : ServiceType → Error E
  already_running : Str → Error E
  unknown_type : ServiceType → Error E
  builder_failed : E → Error E
  not_running : Str → Error E

abbrev pub BuilderFunc : Type 0 → Type 0 → Type 0
BuilderFunc S E = Option ProtocolConfig → Result E S

abbrev pub Builders : Type 0 → Type 0 → Type 0
Builders S E = List (ServiceType × BuilderFunc S E)

abbrev pub Controllers : Type 0 → Type 0
Controllers S = List (Str × ServiceController S)

module _ {S : Type 0} {E : Type 0} where
  -- `builders[t]`
  unfoldable pub builder_of : Builders S E → ServiceType → Option (BuilderFunc S E)
  builder_of [] t = none
  builder_of ((u, fn) ∷ m) t = if u == t then some fn else builder_of m t

  abbrev pub registered :
      Builders S E
      → ServiceType
      → BuilderFunc S E
      → Option (BuilderFunc S E)
      → Result (Error E) (Builders S E)
  registered m t fn (some old) = err (already_registered t)
  registered m t fn none = ok ((t, fn) ∷ m)

  -- `registerServiceType(t, fn)`
  unfoldable pub register_service_type :
      Builders S E → ServiceType → BuilderFunc S E → Result (Error E) (Builders S E)
  unfolding builder_of
  register_service_type m t fn = registered m t fn (builder_of m t)

module _ {S : Type 0} where
  -- `st.controllers[name]`
  unfoldable pub controller_of : Controllers S → Str → Option (ServiceController S)
  unfolding str_eq
  controller_of [] n = none
  controller_of ((k, c) ∷ m) n = if str_eq k n then some c else controller_of m n

  -- `st.controllers[name] = c`
  unfoldable pub put_controller : Str → ServiceController S → Controllers S → Controllers S
  unfolding str_eq
  put_controller n c [] = (n, c) ∷ []
  put_controller n c ((k, d) ∷ m) = if str_eq k n then (n, c) ∷ m else (k, d) ∷ put_controller n c m

  -- `delete(st.controllers, name)`
  unfoldable pub delete : Str → Controllers S → Controllers S
  unfolding str_eq
  delete n [] = []
  delete n ((k, c) ∷ m) = if str_eq k n then m else (k, c) ∷ delete n m

  abbrev pub names : Controllers S → List Str
  names [] = []
  names ((k, c) ∷ m) = k ∷ names m

  -- `controller.Stop()` on each controller.
  abbrev pub stop_all : Controllers S → Controllers S
  stop_all [] = []
  stop_all ((k, c) ∷ m) = (k, record c { cancelled = true }) ∷ stop_all m

  abbrev pub ids_of : Controllers S → List ServiceId
  ids_of [] = []
  ids_of ((k, c) ∷ m) = c.id ∷ ids_of m

module _ {S : Type 0} {E : Type 0} (builders : Builders S E) (first : S → Place) where
  abbrev pub found_builder :
      ServiceType → Option (BuilderFunc S E) → Result (Error E) (BuilderFunc S E)
  found_builder t none = err (unknown_type t)
  found_builder t (some fn) = ok fn

  abbrev pub built : Result E S → Result (Error E) S
  built (ok s) = ok s
  built (err e) = err (builder_failed e)

  abbrev pub not_there : Str → Option (ServiceController S) → Result (Error E) Bool
  not_there n none = ok true
  not_there n (some c) = err (already_running n)

  -- `s.start(ctx, g, st, b)`: `first` is where the goroutine of a service begins.
  unfoldable pub start : Bootstrap → Controllers S → Result (Error E) (Controllers S)
  unfolding controller_of put_controller builder_of
  start b st = do
    free ← not_there b.id.name (controller_of st b.id.name)
    builder ← found_builder b.id.service_type (builder_of builders b.id.service_type)
    service ← built (builder b.config)
    ok (
        put_controller b.id.name
          (record { service = service; id = b.id; cancelled = false; place = first service }) st)

-- What the goroutine of `Run` that receives configurations is at, with the value of its `conf`: between
-- two rounds, that of the round before, if there was one. It left where the context was done, and failed
-- where a service did not start.
pub data Phase (E : Type 0) : Type 0 where
  idle left : Option Config → Phase E
  waiting : Config → List Str → Phase E
  starting : Config → List Bootstrap → Phase E
  failed : Error E → Phase E

-- Is the state in the channel `s.st`? Its receiver in `Run` puts it back only behind the last start.
abbrev pub in_channel : {E : Type 0} → Phase E → Bool
in_channel (idle last) = true
in_channel (left last) = true
in_channel (waiting conf ns) = false
in_channel (starting conf bs) = false
in_channel (failed e) = false

-- The manager: `done` tells whether the context of its errgroup is done.
pub record System (S : Type 0) (E : Type 0) : Type 0 where
  pub phase : Phase E
  pub controllers : Controllers S
  pub done : Bool

module _ {S : Type 0} {E : Type 0} where
  abbrev pub init : System S E
  init = record { phase = idle none; controllers = []; done = false }

  abbrev pub found : ServiceId → Option (ServiceController S) → Result (Error E) S
  found id none = err (not_running id.name)
  found id (some c) = ok c.service

  -- `s.Get(id)`
  unfoldable pub get : ServiceId → System S E → Outcome (Result (Error E) S)
  unfolding controller_of
  get id s =
      if in_channel s.phase
      then returns (found id (controller_of s.controllers id.name))
      else blocks

  -- `s.RunningServices()`, where `range` gives the order in which the loop visits the map.
  unfoldable pub running_services :
      (Controllers S → Controllers S) → System S E → Outcome (List ServiceId)
  running_services range s =
      if in_channel s.phase then returns (ids_of (range s.controllers)) else blocks
