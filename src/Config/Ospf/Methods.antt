-- ===== src/Config/Ospf/Methods.antt =====
-- config/ospf.go: what the services ask an OSPF configuration for.
use chatter.Base.{ℕ, Bool, false, ◌||◌, List, [], ◌∷◌, ltb, Str, length}
use chatter.Config.Service.{ServiceId, service_interface_monitor}
use chatter.Config.Ospf.{InterfaceConfig, AreaConfig, OspfConfig, put, put_area}

-- `c.shouldRun()`: is there an area with an interface?
unfoldable pub areas_run : List (ℕ × AreaConfig) → Bool
areas_run [] = false
areas_run ((k, area) ∷ m) = ltb 0 (length area.interfaces) || areas_run m

abbrev pub should_run : OspfConfig → Bool
should_run c = areas_run c.areas

-- `c.dependencies()`
abbrev pub dependencies : OspfConfig → List ServiceId
dependencies c = service_interface_monitor ∷ []

-- `for k, v := range m { new[k] = v }`
unfoldable pub put_all :
    List (Str × InterfaceConfig) → List (Str × InterfaceConfig) → List (Str × InterfaceConfig)
unfolding put
put_all [] new = new
put_all ((k, v) ∷ m) new = put_all m (put k v new)

-- `c.copy()` of an area.
unfoldable pub copy_area : AreaConfig → AreaConfig
unfolding put_all
copy_area c = record {
  cost = c.cost;
  hello_interval = c.hello_interval;
  router_dead_interval = c.router_dead_interval;
  interfaces = put_all c.interfaces [];
}

unfoldable pub copy_areas : List (ℕ × AreaConfig) → List (ℕ × AreaConfig) → List (ℕ × AreaConfig)
unfolding put_area copy_area
copy_areas [] new = new
copy_areas ((k, v) ∷ m) new = copy_areas m (put_area k (copy_area v) new)

-- `c.copy()`
unfoldable pub copy : OspfConfig → OspfConfig
unfolding copy_areas
copy c = record {
  router_id = c.router_id;
  cost = c.cost;
  hello_interval = c.hello_interval;
  router_dead_interval = c.router_dead_interval;
  areas = copy_areas c.areas [];
}

unfoldable pub gather :
    List (ℕ × AreaConfig) → List (Str × InterfaceConfig) → List (Str × InterfaceConfig)
unfolding put_all
gather [] configs = configs
gather ((k, area) ∷ m) configs = gather m (put_all area.interfaces configs)

-- `c.InterfaceConfigs()`: where two areas have an interface of one name, the later one is kept.
abbrev pub interface_configs : OspfConfig → List (Str × InterfaceConfig)
interface_configs c = gather c.areas []
