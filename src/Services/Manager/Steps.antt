-- ===== src/Services/Manager/Steps.antt =====
-- chatterd/services/service_manager.go: the goroutine of `Run` that receives configurations, and those of
-- the services, as steps.
use chatter.Base.{true, ◌||◌, List, [], ◌∷◌, Option, some, Str, ◌≡◌, Bool}
use chatter.Base.Result.{ok, err}
use chatter.Config.Service.{ServiceId}
use chatter.Config.Graph.{keys}
use chatter.Config.Graph.Visits.{Within}
use chatter.Config.Bootstraps.{Config, Bootstrap, bootstraps, copy_config, service_graph}
use chatter.Services.Manager.{
  Place, calls_get, works, ended, ServiceController, Error, Builders, Controllers, controller_of,
  put_controller, delete, names, stop_all, start, Phase, idle, left, waiting, starting, failed,
  in_channel, System,
}

-- The goroutine of a service moves on.
abbrev pub at_place : {S : Type 0} → Place → ServiceController S → ServiceController S
at_place q c = record c { place = q }

-- A step of the manager, of a service, or of what cancels the context.
pub data Step {S : Type 0} {E : Type 0} (builders : Builders S E) (first : S → Place)
    : System S E → System S E → Type 0 where
  -- A configuration comes: all services are stopped.
  receives :
      {last : Option Config} {c : Controllers S} {d : Bool} (conf : Config)
      → Step builders first
          (record { phase = idle last; controllers = c; done = d })
          (record { phase = waiting conf (names c); controllers = stop_all c; done = d })
  -- `controller.Wait()` returns.
  waited :
      {conf : Config} {n : Str} {ns : List Str} {c : Controllers S} {d : Bool}
      {x : ServiceController S}
      → controller_of c n ≡ some x
      → x.place ≡ ended
      → Step builders first
          (record { phase = waiting conf (n ∷ ns); controllers = c; done = d })
          (record { phase = waiting conf ns; controllers = delete n c; done = d })
  -- All are gone, and the bootstraps of the configuration's copy are next. `order` is the one in which
  -- `Bootstraps` visits the keys of its map.
  begins :
      {conf : Config} {bs : List Bootstrap} {c : Controllers S} {d : Bool} (order : List ServiceId)
      → Within order (keys (service_graph (copy_config conf)).nodes)
      → Within (keys (service_graph (copy_config conf)).nodes) order
      → bootstraps order (copy_config conf) ≡ some bs
      → Step builders first
          (record { phase = waiting conf []; controllers = c; done = d })
          (record { phase = starting conf bs; controllers = c; done = d })
  starts :
      {conf : Config} {b : Bootstrap} {bs : List Bootstrap} {c c' : Controllers S} {d : Bool}
      → start builders first b c ≡ ok c'
      → Step builders first
          (record { phase = starting conf (b ∷ bs); controllers = c; done = d })
          (record { phase = starting conf bs; controllers = c'; done = d })
  fails :
      {conf : Config} {b : Bootstrap} {bs : List Bootstrap} {c : Controllers S} {d : Bool}
      {e : Error E}
      → start builders first b c ≡ err e
      → Step builders first
          (record { phase = starting conf (b ∷ bs); controllers = c; done = d })
          (record { phase = failed e; controllers = c; done = true })
  puts_back :
      {conf : Config} {c : Controllers S} {d : Bool}
      → Step builders first
          (record { phase = starting conf []; controllers = c; done = d })
          (record { phase = idle (some conf); controllers = c; done = d })
  leaves :
      {last : Option Config} {c : Controllers S}
      → Step builders first
          (record { phase = idle last; controllers = c; done = true })
          (record { phase = left last; controllers = c; done = true })
  -- A service gets through its call of `Get`.
  got :
      {p : Phase E} {c : Controllers S} {d : Bool} (n : Str) {x : ServiceController S}
      → controller_of c n ≡ some x
      → x.place ≡ calls_get
      → in_channel p ≡ true
      → Step builders first
          (record { phase = p; controllers = c; done = d })
          (record { phase = p; controllers = put_controller n (at_place works x) c; done = d })
  -- A service ends because it was stopped; it may also never come to that, where it waits for something.
  ends :
      {p : Phase E} {c : Controllers S} {d : Bool} (n : Str) {x : ServiceController S}
      → controller_of c n ≡ some x
      → x.place ≡ works
      → (x.cancelled || d) ≡ true
      → Step builders first
          (record { phase = p; controllers = c; done = d })
          (record { phase = p; controllers = put_controller n (at_place ended x) c; done = d })
  -- A service that works ends by an error of its own, which ends the context.
  breaks :
      {p : Phase E} {c : Controllers S} {d : Bool} (n : Str) {x : ServiceController S}
      → controller_of c n ≡ some x
      → x.place ≡ works
      → Step builders first
          (record { phase = p; controllers = c; done = d })
          (record { phase = p; controllers = put_controller n (at_place ended x) c; done = true })
  -- The context of the caller of `Run` ends.
  cancels :
      {p : Phase E} {c : Controllers S} {d : Bool}
      → Step builders first
          (record { phase = p; controllers = c; done = d })
          (record { phase = p; controllers = c; done = true })

pub data Steps {S : Type 0} {E : Type 0} (builders : Builders S E) (first : S → Place)
    : System S E → System S E → Type 0 where
  stays : {s : System S E} → Steps builders first s s
  then_step :
      {s t u : System S E}
      → Step builders first s t
      → Steps builders first t u
      → Steps builders first s u
