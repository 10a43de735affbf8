-- ===== src/Ospf/Instance.antt =====
-- ospf/ospf.go: the interfaces of an OSPF instance, as the network interfaces of the machine change.
pub mod Keys
pub mod Update
pub mod Agree
use chatter.Base.{
  ℕ, Bool, true, false, not, ◌&&◌, ◌||◌, List, [], ◌∷◌, ◌++◌, Option, none, some, ◌==◌,
  if◌then◌else◌, Str, str_eq,
}
use chatter.Base.Result.{Result, ok, err, ◌>>=◌}
use chatter.Config.Ospf.{OspfConfig, AreaConfig, InterfaceConfig, put, put_area}
use chatter.Config.Ospf.Methods.{interface_configs, gather, put_all}
use chatter.Config.Bootstraps.{ProtocolConfig, ospf}
use chatter.Ospf.Interface.{
  Interface, State, down, loopback, Event, interface_up, interface_down, loop_ind, unloop_ind,
  new_interface, handle_event,
}

-- `netip.Prefix` of an IPv4 address.
pub record Prefix : Type 0 where
  pub addr : ℕ
  pub bits : ℕ

-- What `prefixFromSTDNetAddr` makes of an address of the operating system.
pub data AnyPrefix : Type 0 where
  v4 : Prefix → AnyPrefix
  v6 : ℕ → ℕ → AnyPrefix

-- `net.Interface`, its two flags and what `Addrs` returns, where `none` is an error. An address that
-- is no prefix is `none` in the list.
pub record Netif : Type 0 where
  pub name : Str
  pub up : Bool
  pub loop : Bool
  pub addrs : Option (List (Option AnyPrefix))

pub record InterfaceId : Type 0 where
  pub name : Str
  pub prefix : Prefix

-- `prefixEquals(a, b)`
unfoldable pub prefix_equals : Prefix → Prefix → Bool
prefix_equals a b = a.addr == b.addr && a.bits == b.bits

-- `a == b` on ids.
unfoldable pub id_eq : InterfaceId → InterfaceId → Bool
unfolding str_eq prefix_equals
id_eq a b = str_eq a.name b.name && prefix_equals a.prefix b.prefix

-- An `*Interface` with the prefix that it was made with.
pub record Attached : Type 0 where
  pub interface : Interface
  pub prefix : Prefix

abbrev pub Interfaces : Type 0
Interfaces = List (InterfaceId × Attached)

-- What the instance does to an interface: it starts `Run`, sends an event, sends one and waits until
-- it is handled, or cancels the context.
pub data Action : Type 0 where
  start stop : InterfaceId → Action
  send send_wait : InterfaceId → Event → Action

-- `Instance`; `cancel_funcs` holds the keys of its map, and `actions` what was done, in order.
pub record Instance : Type 0 where
  pub router_id : ℕ
  pub areas : List ℕ
  pub interfaces : Interfaces
  pub cancel_funcs : List InterfaceId
  pub config : OspfConfig
  pub actions : List Action

-- An error that is returned; or that the call never returns, because the loop of the interface has ended
-- and receives no event any more: `sendEvent` and `sendEventWait` wait without a context.
pub data Error : Type 0 where
  no_config no_interfaces : Error
  no_addresses : Str → Error
  no_cancel_func : InterfaceId → Error
  never_returns : InterfaceId → Error

-- `newArea` for each area: an area has its id.
abbrev pub area_ids : List (ℕ × AreaConfig) → List ℕ
area_ids [] = []
area_ids ((k, a) ∷ m) = k ∷ area_ids m

-- `NewInstance(serviceManager, conf)`
unfoldable pub new_instance : Option ProtocolConfig → Result Error Instance
new_instance none = err no_config
new_instance (some (ospf c)) = ok (record {
  router_id = c.router_id;
  areas = area_ids c.areas;
  interfaces = [];
  cancel_funcs = [];
  config = c;
  actions = [];
})

-- The loop of `netifPrefixesV4` over the addresses.
unfoldable pub v4_prefixes : List (Option AnyPrefix) → List Prefix
v4_prefixes [] = []
v4_prefixes (some (v4 p) ∷ as') = p ∷ v4_prefixes as'
v4_prefixes (some (v6 a b) ∷ as') = v4_prefixes as'
v4_prefixes (none ∷ as') = v4_prefixes as'

abbrev pub NetifAndPrefixes : Type 0
NetifAndPrefixes = Netif × List Prefix

-- `netifPrefixesV4(netif)`
abbrev pub netif_prefixes_v4 : Netif → Option (List (Option AnyPrefix)) → Result Error (List Prefix)
netif_prefixes_v4 n none = err (no_addresses n.name)
netif_prefixes_v4 n (some as') = ok (v4_prefixes as')

-- The map `nameToNetif`: where two network interfaces have one name, the later is kept.
unfoldable pub put_netif :
    NetifAndPrefixes → List (Str × NetifAndPrefixes) → List (Str × NetifAndPrefixes)
unfolding str_eq
put_netif nap [] = (nap.0.name, nap) ∷ []
put_netif nap ((k, v) ∷ m) = if str_eq k nap.0.name then (k, nap) ∷ m else (k, v) ∷ put_netif nap m

unfoldable pub name_netifs :
    List Netif → List (Str × NetifAndPrefixes) → Result Error (List (Str × NetifAndPrefixes))
unfolding put_netif v4_prefixes
name_netifs [] m = ok m
name_netifs (n ∷ ns) m = do
  prefixes ← netif_prefixes_v4 n n.addrs
  name_netifs ns (put_netif (n, prefixes) m)

unfoldable pub netif_of : List (Str × NetifAndPrefixes) → Str → Option NetifAndPrefixes
unfolding str_eq
netif_of [] n = none
netif_of ((k, v) ∷ m) n = if str_eq k n then some v else netif_of m n

-- Is the prefix among those of the network interface?
unfoldable pub has_prefix_in : List Prefix → Prefix → Bool
unfolding prefix_equals
has_prefix_in [] p = false
has_prefix_in (q ∷ qs) p = prefix_equals q p || has_prefix_in qs p

unfoldable pub has_key : Interfaces → InterfaceId → Bool
unfolding id_eq
has_key [] id = false
has_key ((k, a) ∷ m) id = id_eq k id || has_key m id

unfoldable pub has_func : List InterfaceId → InterfaceId → Bool
unfolding id_eq
has_func [] id = false
has_func (k ∷ ks) id = id_eq k id || has_func ks id

abbrev pub is_up : State → Bool
is_up down = false
is_up _ = true

abbrev pub is_loopback : State → Bool
is_loopback loopback = true
is_loopback _ = false

-- The two tests on the state of an interface that is there, and the events sent for them.
abbrev pub up_changes : Netif → State → List Event
up_changes n s =
    if n.up && not (is_up s)
    then interface_up ∷ []
    else if not n.up && is_up s
    then interface_down ∷ []
    else []

abbrev pub loop_changes : Netif → State → List Event
loop_changes n s =
    if n.loop && not (is_loopback s)
    then loop_ind ∷ []
    else if not n.loop && is_loopback s
    then unloop_ind ∷ []
    else []

-- The interface handles events in a goroutine of its own.
unfoldable pub handled : List Event → Interface → Interface
unfolding handle_event
handled [] i = i
handled (e ∷ es) i = handled es (handle_event e i)

-- The events for an interface: `sendEvent` returns when the event is received, so that the second test
-- reads the state from before the first event is handled, or, where it is `late`, from behind it.
unfoldable pub changes : Bool → Netif → Interface → List Event
unfolding handled
changes late n i =
    let first = up_changes n i.state in
    first ++ loop_changes n (if late then (handled first i).state else i.state)

abbrev pub sends : InterfaceId → List Event → List Action
sends id [] = []
sends id (e ∷ es) = send id e ∷ sends id es

-- `sendEvent` for each event, where `takes` says whether the interface's loop receives events.
unfoldable pub sent : (InterfaceId → Bool) → InterfaceId → List Event → Result Error (List Action)
sent takes id [] = ok []
sent takes id (e ∷ es) = if takes id then ok (sends id (e ∷ es)) else err (never_returns id)

-- The interface's network interface or address is gone.
abbrev pub removed :
    (InterfaceId → Bool) → List InterfaceId → InterfaceId → Result Error (List Action)
removed takes funcs id =
    if not (takes id)
    then err (never_returns id)
    else if has_func funcs id
    then ok (send_wait id interface_down ∷ stop id ∷ [])
    else err (no_cancel_func id)

-- Is the interface still there, and with which network interface?
abbrev pub still_there : Attached → Option NetifAndPrefixes → Option Netif
still_there a none = none
still_there a (some nap) = if has_prefix_in nap.1 a.prefix then some nap.0 else none

-- `for id, iface := range i.Interfaces`: the interfaces that stay, and what was done.
unfoldable pub update_existing :
    (InterfaceId → Bool)
    → (InterfaceId → Bool)
    → List (Str × NetifAndPrefixes)
    → List InterfaceId
    → Interfaces
    → Result Error (Interfaces × List Action)
unfolding netif_of has_prefix_in has_func changes sent
update_existing takes late nets funcs [] = ok ([], [])
update_existing takes late nets funcs ((id, a) ∷ m) = elim (still_there a (netif_of nets id.name)) [
  | none ↦ (do
    now ← removed takes funcs id
    rest ← update_existing takes late nets funcs m
    ok (rest.0, now ++ rest.1))
  | some n ↦ (do
    now ← sent takes id (changes (late id) n a.interface)
    rest ← update_existing takes late nets funcs m
    ok ((id, a) ∷ rest.0, now ++ rest.1))
]

-- The events for an interface that is new.
unfoldable pub first_events : Netif → List Event
first_events n = (if n.up then interface_up ∷ [] else []) ++ (if n.loop then loop_ind ∷ [] else [])

abbrev pub attach : InterfaceConfig → Prefix → Attached
attach c p = record {
  interface = new_interface c.hello_interval c.router_dead_interval c.cost;
  prefix = p;
}

-- `i.Interfaces[id] = newInterface(...)`, and what follows it.
abbrev pub add_interface : InterfaceConfig → InterfaceId → List Action → Instance → Instance
add_interface c id acts i = record i {
  interfaces = i.interfaces ++ (id, attach c id.prefix) ∷ [];
  cancel_funcs = id ∷ i.cancel_funcs;
  actions = i.actions ++ (start id ∷ acts);
}

-- The loop that was started reads `i.Interfaces[id]` for itself; that no write of the map meets this read
-- is taken for granted.
unfoldable pub add_one :
    (InterfaceId → Bool) → InterfaceConfig → InterfaceId → Netif → Instance → Result Error Instance
unfolding has_key first_events sent
add_one takes c id n i =
    if has_key i.interfaces id
    then ok i
    else (do acts ← sent takes id (first_events n); ok (add_interface c id acts i))

abbrev pub id_of : Str → Prefix → InterfaceId
id_of name p = record { name = name; prefix = p }

-- `for _, prefix := range prefixes`
unfoldable pub add_prefixes :
    (InterfaceId → Bool)
    → Str
    → InterfaceConfig
    → Netif
    → List Prefix
    → Instance
    → Result Error Instance
unfolding add_one
add_prefixes takes name c n [] i = ok i
add_prefixes takes name c n (p ∷ ps) i = do
  i' ← add_one takes c (id_of name p) n i
  add_prefixes takes name c n ps i'

abbrev pub add_netif :
    (InterfaceId → Bool)
    → Str
    → InterfaceConfig
    → Option NetifAndPrefixes
    → Instance
    → Result Error Instance
add_netif takes name c none i = ok i
add_netif takes name c (some nap) i = add_prefixes takes name c nap.0 nap.1 i

-- `for name, conf := range configs`
unfoldable pub add_new :
    (InterfaceId → Bool)
    → List (Str × NetifAndPrefixes)
    → List (Str × InterfaceConfig)
    → Instance
    → Result Error Instance
unfolding netif_of add_prefixes
add_new takes nets [] i = ok i
add_new takes nets ((name, c) ∷ m) i = do
  i' ← add_netif takes name c (netif_of nets name) i
  add_new takes nets m i'

abbrev pub found_netifs : Option (List Netif) → Result Error (List Netif)
found_netifs none = err no_interfaces
found_netifs (some ns) = ok ns

-- `i.updateInterfaces(ctx, g)`, where `netifs` is what `net.Interfaces` returns, and
-- `takes` and `late` say whether and how the goroutine of each interface comes along.
unfoldable pub update_interfaces :
    (InterfaceId → Bool)
    → (InterfaceId → Bool)
    → Option (List Netif)
    → Instance
    → Result Error Instance
unfolding name_netifs update_existing add_new gather
update_interfaces takes late netifs i = do
  ns ← found_netifs netifs
  nets ← name_netifs ns []
  rest ← update_existing takes late nets i.cancel_funcs i.interfaces
  add_new takes nets (interface_configs i.config)
      (record i { interfaces = rest.0; actions = i.actions ++ rest.1 })
