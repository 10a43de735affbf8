-- ===== src/Config/Bootstraps/Plan.antt =====
-- config/config.go: the services that an accepted configuration makes start.
use chatter.Base.{true, List, [], ◌∷◌, Option, some, Str, ◌≡◌, refl, ◌⊎◌, all_nil, all_cons, All}
use chatter.Base.Result.{ok}
use chatter.Commands.Matching.{Addr}
use chatter.Config.Service.{
  ServiceId, service_api_server, service_interface_monitor, service_ospf, has,
}
use chatter.Config.Ospf.{Entries}
use chatter.Config.Graph.{keys}
use chatter.Config.Graph.Visits.{Distinct, Within}
use chatter.Config.Graph.Sorted.{IsPlan}
use chatter.Config.Graph.Order.{InOrder, topological_sort-InOrder}
use chatter.Config.Bootstraps.Shape.{
  load_config-Sections, Sections, Sections-Shape, Shape-Ranked, Shape-Listed, Listed, by_type,
  ospf_runs,
}
use chatter.Config.Bootstraps.{
  Config, config_of, load_config, Bootstrap, service_graph, each_bootstrap, bootstraps,
}

abbrev pub names : List Bootstrap → List ServiceId
names [] = []
names (b ∷ bs) = b.id ∷ names bs

-- What the services manager is given to start.
pub record Plan (c : Config) (bs : List Bootstrap) : Type 0 where
  pub once : Distinct (names bs)
  pub api_server_starts : has (names bs) service_api_server ≡ true
  pub ospf_starts :
      has (names bs) service_ospf ≡ ospf_runs (config_of c.protocol_configs service_ospf)
  pub monitor_starts :
      has (names bs) service_interface_monitor
      ≡ ospf_runs (config_of c.protocol_configs service_ospf)
  pub nothing_else :
      (x : ServiceId)
      → has (names bs) x ≡ true
      → (x ≡ service_api_server) ⊎ (x ≡ service_ospf) ⊎ (x ≡ service_interface_monitor)
  pub in_order : InOrder (service_graph c) (names bs)
  pub configs : All (λ (b : Bootstrap). b.config ≡ config_of c.protocol_configs b.id) bs

names-each_bootstrap : (c : Config) (k : List ServiceId) → names (each_bootstrap c k) ≡ k
unfolding each_bootstrap
names-each_bootstrap c [] = refl
names-each_bootstrap c (s ∷ k) = rw (names-each_bootstrap c k) refl

configs-each_bootstrap :
    (c : Config) (k : List ServiceId)
    → All (λ (b : Bootstrap). b.config ≡ config_of c.protocol_configs b.id) (each_bootstrap c k)
unfolding each_bootstrap
configs-each_bootstrap c [] = all_nil
configs-each_bootstrap c (s ∷ k) = all_cons refl (configs-each_bootstrap c k)

Plan-each_bootstrap :
    (c : Config) (k : List ServiceId)
    → Listed (ospf_runs (config_of c.protocol_configs service_ospf)) k
    → IsPlan (service_graph c) k
    → InOrder (service_graph c) k
    → Plan c (each_bootstrap c k)
Plan-each_bootstrap c k l p i = record {
  once = rw (names-each_bootstrap c k) p.once;
  api_server_starts = rw (names-each_bootstrap c k) l.api;
  ospf_starts = rw (names-each_bootstrap c k) l.ospf_listed;
  monitor_starts = rw (names-each_bootstrap c k) l.monitor;
  nothing_else = λ x h. l.rest x (rw (names-each_bootstrap c k) at h);
  in_order = rw (names-each_bootstrap c k) i;
  configs = configs-each_bootstrap c k;
}

-- Bootstraps on a configuration of the sections that there are.
pub bootstraps-Plan :
    (c : Config)
    → Sections c
    → (order : List ServiceId) → Within order (keys (service_graph c).nodes)
    → Within (keys (service_graph c).nodes) order
    → (bs : List Bootstrap) × (bootstraps order c ≡ some bs) × Plan c bs
unfolding bootstraps
bootstraps-Plan c sections order w v =
    let shape = Sections-Shape sections in
    let (k, s, p, i) =
      topological_sort-InOrder (service_graph c) by_type (Shape-Ranked shape) order w v in
    (each_bootstrap c k, rw s refl, Plan-each_bootstrap c k (Shape-Listed shape p) p i)

-- For a configuration that loadConfig accepts, Bootstraps returns, in whatever order the maps are
-- visited: the API server is there, the OSPF service and the interface monitor are there exactly if
-- some OSPF area has an interface, nothing else is and nothing comes twice, each service has its own
-- configuration, and each comes behind those that it depends on.
pub load_config-Plan :
    (parse_addr : Str → Option Addr) (unmarshal : Str → Option Entries)
    (read_file : Str → Option Str) (path : Str) (c : Config)
    → load_config parse_addr unmarshal read_file path ≡ ok c
    → (order : List ServiceId) → Within order (keys (service_graph c).nodes)
    → Within (keys (service_graph c).nodes) order
    → (bs : List Bootstrap) × (bootstraps order c ≡ some bs) × Plan c bs
load_config-Plan parse_addr unmarshal read_file path c e order w v =
    bootstraps-Plan c (load_config-Sections parse_addr unmarshal read_file path c e) order w v
