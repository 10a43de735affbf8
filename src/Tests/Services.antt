-- ===== src/Tests/Services.antt =====
-- config/graph.go, config/config.go and chatterd/services/service_manager.go: small graphs, a
-- configuration with one OSPF interface, and a manager that takes it over.
use chatter.Base.{
  if◌then◌else◌, ◌==◌, ℕ, false, List, [], ◌∷◌, Option, none, some, Str, codes, str_eq, ◌≡◌, refl,
  here, all_nil, all_cons,
}
use chatter.Base.Result.{ok}
use chatter.Config.Service.{ServiceId, service_api_server, service_interface_monitor, service_ospf}
use chatter.Config.Ospf.{Entries, nil, entry, mapping}
use chatter.Config.Ospf.Tests.{parse_none, section, config, parsed_section}
use chatter.Config.Graph.{Graph, keys, topological_sort}
use chatter.Config.Graph.Visits.{Within-refl}
use chatter.Config.Graph.Sorted.{IsPlan, topological_sort-IsPlan}
use chatter.Config.Graph.Order.{InOrder, topological_sort-InOrder}
use chatter.Config.Bootstraps.{
  Config, ospf, ospf_section, top_entries, parse_config, load_config, put_config, service_graph,
  bootstraps, Bootstrap, ProtocolConfig, copy_config,
}
use chatter.Config.Bootstraps.Copies.{once_nil, once_cons, keyed_area, keyed_ospf, copy_config-eq}
use chatter.Config.Bootstraps.Plan.{Plan, load_config-Plan}
use chatter.Config.Bootstraps.Shape.{running, running-Ranked}
use chatter.Sync.Queue.{blocks}
use chatter.Services.Manager.{
  Place, calls_get, works, ServiceController, Builders, Controllers, builder_of, controller_of,
  names as names_of, stop_all, System, idle, waiting, starting, get, running_services,
}
use chatter.Services.Manager.Steps.{Steps, stays}
use chatter.Services.Manager.Stuck.{Stuck, receives-Stuck}
use chatter.Services.Manager.Failed.{Refused, no_builder, Doomed, starting-Doomed}

-- Two services that depend on each other.
abbrev circle : Graph
circle = record {
  nodes = (service_ospf, service_api_server ∷ []) ∷ (service_api_server, service_ospf ∷ []) ∷ [];
}

topological_sort-IsPlan_example :
    (k : List ServiceId) × (topological_sort (keys circle.nodes) circle ≡ some k) × IsPlan circle k
topological_sort-IsPlan_example =
    topological_sort-IsPlan circle (keys circle.nodes) (Within-refl (keys circle.nodes))
      (Within-refl (keys circle.nodes))

-- The file of the configuration, and what the YAML library makes of its text.
abbrev read_text : Str → Option Str
read_text path = some (codes "ospf:")

abbrev tree : Str → Option Entries
tree s = some (entry (codes "ospf") (mapping section) nil)

abbrev loaded : Config
loaded = record { protocol_configs = (service_ospf, ospf config) ∷ [] }

loaded_lem : load_config parse_none tree read_text (codes "chatter.yaml") ≡ ok loaded
unfolding load_config parse_config top_entries ospf_section put_config str_eq
loaded_lem = rw parsed_section refl

copy_config-eq_example : copy_config loaded ≡ loaded
copy_config-eq_example = copy_config-eq loaded (once_cons all_nil once_nil) (
    all_cons
      (keyed_ospf (record {
        areas_once = once_cons all_nil once_nil;
        interfaces_once = all_cons (keyed_area (once_cons all_nil once_nil)) all_nil;
      }))
      all_nil)

abbrev any_order : List ServiceId
any_order = keys (service_graph loaded).nodes

load_config-Plan_example :
    (bs : List Bootstrap) × (bootstraps any_order loaded ≡ some bs) × Plan loaded bs
load_config-Plan_example =
    load_config-Plan parse_none tree read_text (codes "chatter.yaml") loaded loaded_lem any_order
      (Within-refl any_order) (Within-refl any_order)

abbrev by_type : ServiceId → ℕ
by_type s = s.service_type

topological_sort-InOrder_example :
    (k : List ServiceId) × (topological_sort (keys running.nodes) running ≡ some k)
    × IsPlan running k
    × InOrder running k
topological_sort-InOrder_example =
    topological_sort-InOrder running by_type running-Ranked (keys running.nodes)
      (Within-refl (keys running.nodes)) (Within-refl (keys running.nodes))

-- Services are numbers, and the OSPF service is the one that begins with a call of Get.
abbrev builders : Builders ℕ ℕ
builders = (0, λ c. ok 0) ∷ (1, λ c. ok 1) ∷ (2, λ c. ok 2) ∷ []

abbrev first : ℕ → Place
first n = if n == 2 then calls_get else works

abbrev server : ServiceController ℕ
server = record { service = 0; id = service_api_server; cancelled = false; place = works }

abbrev early : ServiceController ℕ
early = record { service = 2; id = service_ospf; cancelled = false; place = calls_get }

abbrev old : Controllers ℕ
old = (codes "APIServer", server) ∷ []

abbrev copy_order : List ServiceId
copy_order = keys (service_graph (copy_config loaded)).nodes

-- A run with one configuration, whose three services start one by one.
abbrev boot : ServiceId → Option ProtocolConfig → Bootstrap
boot id c = record { id = id; config = c }

abbrev planned : List Bootstrap
planned =
    boot service_api_server none
    ∷ boot service_interface_monitor none
    ∷ boot service_ospf (some (ospf config))
    ∷ []

abbrev runs_as : ServiceId → ℕ → Str × ServiceController ℕ
runs_as id n = (id.name, record { service = n; id = id; cancelled = false; place = first n })

abbrev one : Controllers ℕ
one = runs_as service_api_server 0 ∷ []

abbrev two : Controllers ℕ
two = runs_as service_api_server 0 ∷ runs_as service_interface_monitor 1 ∷ []

abbrev three : Controllers ℕ
three =
    runs_as service_api_server 0 ∷ runs_as service_interface_monitor 1 ∷ runs_as service_ospf 2 ∷ []

abbrev behind : System ℕ ℕ
behind = record { phase = idle (some loaded); controllers = three; done = false }

-- A configuration comes while the OSPF service is still before its call of Get.
abbrev caught : Controllers ℕ
caught = (codes "APIServer", server) ∷ (codes "OSPF", early) ∷ []

abbrev waits : System ℕ ℕ
waits = record {
  phase = waiting loaded (names_of caught);
  controllers = stop_all caught;
  done = false;
}

caught_lem : controller_of caught (codes "OSPF") ≡ some early
unfolding controller_of str_eq
caught_lem = refl

receives-Stuck_example :
    Stuck (codes "OSPF") waits
    × ((id : ServiceId) → get id waits ≡ blocks)
    × ((range : Controllers ℕ → Controllers ℕ) → running_services range waits ≡ blocks)
receives-Stuck_example =
    receives-Stuck {builders = builders} {first = first} (codes "OSPF") loaded caught caught_lem
      refl stays

-- The first service to start has no builder.
abbrev unknown : Bootstrap
unknown = record { id = record { service_type = 7; name = codes "Unknown" }; config = none }

abbrev broken : System ℕ ℕ
broken = record { phase = starting loaded (unknown ∷ []); controllers = old; done = false }

unknown-Refused : Refused builders unknown
unfolding builder_of
unknown-Refused = no_builder refl

starting-Doomed_example :
    Doomed builders broken
    × ((id : ServiceId) → get id broken ≡ blocks)
    × ((range : Controllers ℕ → Controllers ℕ) → running_services range broken ≡ blocks)
starting-Doomed_example =
    starting-Doomed {builders = builders} {first = first} {s = broken} refl (here unknown-Refused)
      stays
