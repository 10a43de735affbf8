-- ===== src/Ospf/Interface.antt =====
-- ospf/interface.go: an OSPF interface, and the loop that handles its events and timers.
pub mod Reach
use chatter.Base.{
  ℕ, Bool, true, false, ◌||◌, List, [], ◌∷◌, Option, none, some, ◌==◌, if◌then◌else◌,
}

pub data InterfaceType : Type 0 where
  point_to_point_type broadcast nbma point_to_multipoint : InterfaceType
  point_to_multipoint_broadcast virtual_link : InterfaceType

pub data State : Type 0 where
  down loopback waiting point_to_point dr_other backup dr : State

pub data Event : Type 0 where
  interface_up wait_timer backup_seen neighbor_change loop_ind unloop_ind interface_down : Event

-- A timer is stopped, or set to a number of seconds.
pub record Interface : Type 0 where
  pub interface_type : InterfaceType
  pub state : State
  pub hello_interval : ℕ
  pub router_dead_interval : ℕ
  pub inf_trans_delay : ℕ
  pub router_priority : ℕ
  pub cost : ℕ
  pub rxmt_interval : ℕ
  pub hello_timer : Option ℕ
  pub wait_timer_left : Option ℕ

-- `newInterface`, from the three numbers of its configuration.
unfoldable pub new_interface : ℕ → ℕ → ℕ → Interface
new_interface hello dead cost = record {
  interface_type = point_to_point_type;
  state = down;
  hello_interval = hello;
  router_dead_interval = dead;
  inf_trans_delay = 1;
  router_priority = 1;
  cost = cost;
  rxmt_interval = 5;
  hello_timer = none;
  wait_timer_left = none;
}

-- `isPTP() || isPTMP() || isVirtualLink()`
abbrev pub no_election : InterfaceType → Bool
no_election point_to_point_type = true
no_election point_to_multipoint = true
no_election point_to_multipoint_broadcast = true
no_election virtual_link = true
no_election _ = false

-- The three branches at `ieInterfaceUp`.
unfoldable pub elect : Interface → Interface
elect i =
    if no_election i.interface_type
    then record i { state = point_to_point }
    else if i.router_priority == 0
    then record i { state = dr_other }
    else record i { wait_timer_left = some i.inf_trans_delay; state = waiting }

-- The last assignment at `ieInterfaceUp` comes behind all three branches.
unfoldable pub handle_event : Event → Interface → Interface
unfolding elect
handle_event interface_up i = record (elect (record i { hello_timer = some i.hello_interval })) {
  state = point_to_point;
}
handle_event wait_timer i = i
handle_event backup_seen i = i
handle_event neighbor_change i = i
handle_event loop_ind i = record i { state = loopback }
handle_event unloop_ind i = record i { state = point_to_point }
handle_event interface_down i = record i { state = down }

-- What the loop of `Run` receives: an event, a timer that fires, or the end of its context.
pub data Input : Type 0 where
  event : Event → Input
  hello_fires wait_fires cancel : Input

-- One round of the loop.
unfoldable pub round : Input → Interface → Interface
unfolding handle_event
round (event e) i = handle_event e i
round hello_fires i = record i { hello_timer = some i.hello_interval }
round wait_fires i = record i { wait_timer_left = none }
round cancel i = record i { hello_timer = none; wait_timer_left = none }

-- `Run` on the inputs that it receives, in order; the flag says that it still runs.
unfoldable pub run : Interface → List Input → Interface × Bool
unfolding round
run i [] = (i, true)
run i (cancel ∷ xs) = (round cancel i, false)
run i (x ∷ xs) = run (round x i) xs
