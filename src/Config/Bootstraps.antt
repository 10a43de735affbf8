-- ===== src/Config/Bootstraps.antt =====
-- config/config.go: the configuration of the daemon, and the services that it makes start.
pub mod Shape
pub mod Plan
pub mod Copies
use chatter.Base.{
  ℕ, Bool, true, false, List, [], ◌∷◌, ◌++◌, Option, none, some, if◌then◌else◌, Str, codes, str_eq,
}
use chatter.Base.Result.{Result, ok, err, ◌>>=◌}
use chatter.Commands.Matching.{Addr}
use chatter.Config.Service.{ServiceId, service_api_server, service_ospf, id_eq}
use chatter.Config.Ospf.{
  OspfConfig, Entries, Value, mapping, nil, entry, Error, unknown_key, parse_ospf_config,
}
use chatter.Config.Ospf.Methods.{should_run, dependencies, copy}
use chatter.Config.Graph.{Graph, new_graph, add_node, topological_sort}

-- The interface `protocolConfig`, with the one type that implements it.
pub data ProtocolConfig : Type 0 where
  ospf : OspfConfig → ProtocolConfig

abbrev pub runs : ProtocolConfig → Bool
runs (ospf c) = should_run c

abbrev pub deps : ProtocolConfig → List ServiceId
deps (ospf c) = dependencies c

abbrev pub copied : ProtocolConfig → ProtocolConfig
copied (ospf c) = ospf (copy c)

pub record Config : Type 0 where
  pub protocol_configs : List (ServiceId × ProtocolConfig)

-- `c.protocolConfigs[id] = conf`
unfoldable pub put_config :
    ServiceId
    → ProtocolConfig
    → List (ServiceId × ProtocolConfig)
    → List (ServiceId × ProtocolConfig)
unfolding id_eq
put_config id v [] = (id, v) ∷ []
put_config id v ((k, w) ∷ m) = if id_eq k id then (id, v) ∷ m else (k, w) ∷ put_config id v m

-- `c.protocolConfigs[id]`, where `none` is nil.
unfoldable pub config_of : List (ServiceId × ProtocolConfig) → ServiceId → Option ProtocolConfig
unfolding id_eq
config_of [] id = none
config_of ((k, w) ∷ m) id = if id_eq k id then some w else config_of m id

-- What goes wrong while a configuration is read.
pub data ConfigError : Type 0 where
  no_file : ConfigError
  no_yaml : ConfigError
  ospf_not_map : ConfigError
  unknown_top_key : Str → ConfigError
  bad_ospf : Error → ConfigError

abbrev pub in_section : Result Error OspfConfig → Result ConfigError OspfConfig
in_section (ok c) = ok c
in_section (err e) = err (bad_ospf e)

abbrev pub wanted : Option Str → Result ConfigError Str
wanted none = err no_file
wanted (some s) = ok s

abbrev pub unmarshalled : Option Entries → Result ConfigError Entries
unmarshalled none = err no_yaml
unmarshalled (some es) = ok es

-- `c.validate()`
abbrev pub validate : Config → Result ConfigError Config
validate c = ok c

-- `netip.ParseAddr`; `yaml.Unmarshal` into a map; and `os.ReadFile`, each with `none` for an error.
module _ (parse_addr : Str → Option Addr) (unmarshal : Str → Option Entries)
    (read_file : Str → Option Str) where
  unfoldable pub ospf_section : Value → Result ConfigError OspfConfig
  ospf_section (mapping es) = in_section (parse_ospf_config parse_addr es)
  ospf_section _ = err ospf_not_map

  -- `for k, v := range data`
  unfoldable pub top_entries : Entries → Config → Result ConfigError Config
  unfolding ospf_section put_config
  top_entries nil c = ok c
  top_entries (entry k v es) c =
      if str_eq k (codes "ospf")
      then (do
        conf ← ospf_section v
        top_entries es
            (record { protocol_configs = put_config service_ospf (ospf conf) c.protocol_configs }))
      else err (unknown_top_key k)

  -- `parseConfig(s)`
  unfoldable pub parse_config : Str → Result ConfigError Config
  unfolding top_entries
  parse_config s = do
    es ← unmarshalled (unmarshal s)
    top_entries es (record { protocol_configs = [] })

  -- `loadConfig(path)`
  unfoldable pub load_config : Str → Result ConfigError Config
  unfolding parse_config
  load_config path = do s ← wanted (read_file path); c ← parse_config s; validate c

pub record Bootstrap : Type 0 where
  pub id : ServiceId
  pub config : Option ProtocolConfig

-- `for s, conf := range c.protocolConfigs`
unfoldable pub add_nodes : List (ServiceId × ProtocolConfig) → Graph → Graph
add_nodes [] g = g
add_nodes ((s, conf) ∷ m) g = add_nodes m (if runs conf then add_node g s (deps conf) else g)

abbrev pub service_graph : Config → Graph
service_graph c = add_nodes c.protocol_configs (add_node new_graph service_api_server [])

-- `for _, id := range ids`
unfoldable pub each_bootstrap : Config → List ServiceId → List Bootstrap
unfolding config_of
each_bootstrap c [] = []
each_bootstrap c (id ∷ ids) =
    record { id = id; config = config_of c.protocol_configs id } ∷ each_bootstrap c ids

abbrev pub bootstraps_of : Config → Option (List ServiceId) → Option (List Bootstrap)
bootstraps_of c none = none
bootstraps_of c (some ids) = some (each_bootstrap c ids)

-- `c.Bootstraps()`, where the sort visits the keys of its graph in the given order.
unfoldable pub bootstraps : List ServiceId → Config → Option (List Bootstrap)
unfolding each_bootstrap add_nodes topological_sort
bootstraps order c = bootstraps_of c (topological_sort order (service_graph c))

unfoldable pub copy_configs :
    List (ServiceId × ProtocolConfig)
    → List (ServiceId × ProtocolConfig)
    → List (ServiceId × ProtocolConfig)
unfolding put_config
copy_configs [] new = new
copy_configs ((k, v) ∷ m) new = copy_configs m (put_config k (copied v) new)

-- `c.Copy()`
abbrev pub copy_config : Config → Config
copy_config c = record { protocol_configs = copy_configs c.protocol_configs [] }
