-- ===== src/Config/Ospf.antt =====
-- config/ospf.go: the OSPF section of the configuration, from YAML data to records with defaults.
-- A map is the list of its entries in the order in which `range` visits them, which Go leaves open.
pub mod Reading
pub mod Ranges
pub mod Methods
pub mod Tests
use chatter.Base.{
  ℕ, zero, suc, ◌+◌, ◌-◌, ◌*◌, Bool, true, false, ◌&&◌, List, [], ◌∷◌, ◌++◌, Option, none, some,
  ltb, leb, ◌==◌, if◌then◌else◌, Str, codes, str_eq, strip_prefix,
}
use chatter.Base.Int.{ℤ, pos, negsuc}
use chatter.Base.Result.{Result, ok, err, ◌>>=◌}
use chatter.Commands.Matching.{Addr, ipv4}

-- What `yaml.Unmarshal` leaves in an `interface{}`.
mutual
  pub data Value : Type 0 where
    text : Str → Value
    int : ℤ → Value
    mapping : Entries → Value
    other : Value

  pub data Entries : Type 0 where
    nil : Entries
    entry : Str → Value → Entries → Entries

pub data Field : Type 0 where
  cost hello_interval dead_interval : Field

pub data Error : Type 0 where
  bad_router_id router_id_negative router_id_too_big bad_area_id : Error
  not_integer too_small too_big : Field → Error
  unknown_key : Str → Error
  area_not_map interface_not_map no_backbone : Error

abbrev pub u16_max : ℕ
u16_max = 65535

abbrev pub u32_max : ℕ
u32_max = 4294967295

-- `strconv.ParseUint(s, 10, 32)` on the digits behind the value so far.
unfoldable pub digits_from : ℕ → Str → Option ℕ
digits_from n [] = some n
digits_from n (c ∷ s) =
    let more : Option ℕ = digits_from (n * 10 + (c - b'0')) s in
    if leb b'0' c && leb c b'9' && leb (n * 10 + (c - b'0')) u32_max then more else none

unfoldable pub parse_uint : Str → Option ℕ
unfolding digits_from
parse_uint [] = none
parse_uint (c ∷ s) = digits_from 0 (c ∷ s)

-- An area's or interface's number that must lie between 1 and the maximum of its type.
unfoldable pub parse_field : Field → ℕ → Value → Result Error ℕ
parse_field f top (int (pos v)) =
    if ltb v 1 then err (too_small f) else if ltb top v then err (too_big f) else ok v
parse_field f top (int (negsuc v)) = err (too_small f)
parse_field f top _ = err (not_integer f)

pub record InterfaceConfig : Type 0 where
  pub area_id : ℕ
  pub cost : ℕ
  pub hello_interval : ℕ
  pub router_dead_interval : ℕ

pub record AreaConfig : Type 0 where
  pub cost : ℕ
  pub hello_interval : ℕ
  pub router_dead_interval : ℕ
  pub interfaces : List (Str × InterfaceConfig)

pub record OspfConfig : Type 0 where
  pub router_id : ℕ
  pub cost : ℕ
  pub hello_interval : ℕ
  pub router_dead_interval : ℕ
  pub areas : List (ℕ × AreaConfig)

-- `m[k] = v` on a map with string keys, and on one with area ids.
unfoldable pub put :
    Str → InterfaceConfig → List (Str × InterfaceConfig) → List (Str × InterfaceConfig)
unfolding str_eq
put k v [] = (k, v) ∷ []
put k v ((j, w) ∷ m) = if str_eq j k then (k, v) ∷ m else (j, w) ∷ put k v m

unfoldable pub put_area : ℕ → AreaConfig → List (ℕ × AreaConfig) → List (ℕ × AreaConfig)
put_area k v [] = (k, v) ∷ []
put_area k v ((j, w) ∷ m) = if j == k then (k, v) ∷ m else (j, w) ∷ put_area k v m

unfoldable pub get_area : ℕ → List (ℕ × AreaConfig) → Option AreaConfig
get_area k [] = none
get_area k ((j, w) ∷ m) = if j == k then some w else get_area k m

-- The `setDefaults` methods: a field that is 0 takes the value of the level above.
abbrev pub or_default : ℕ → ℕ → ℕ
or_default x d = if x == 0 then d else x

unfoldable pub interface_defaults : AreaConfig → InterfaceConfig → InterfaceConfig
interface_defaults ac ic = record ic {
  cost = or_default ic.cost ac.cost;
  hello_interval = or_default ic.hello_interval ac.hello_interval;
  router_dead_interval = or_default ic.router_dead_interval ac.router_dead_interval;
}

interfaces_defaults : AreaConfig → List (Str × InterfaceConfig) → List (Str × InterfaceConfig)
unfolding interface_defaults
interfaces_defaults ac [] = []
interfaces_defaults ac ((k, ic) ∷ m) = (k, interface_defaults ac ic) ∷ interfaces_defaults ac m

-- The area's own numbers, filled in before those of its interfaces.
abbrev pub fill_area : OspfConfig → AreaConfig → AreaConfig
fill_area c ac = record ac {
  cost = or_default ac.cost c.cost;
  hello_interval = or_default ac.hello_interval c.hello_interval;
  router_dead_interval = or_default ac.router_dead_interval c.router_dead_interval;
}

unfoldable pub area_defaults : OspfConfig → AreaConfig → AreaConfig
unfolding interfaces_defaults
area_defaults c ac = record (fill_area c ac) {
  interfaces = interfaces_defaults (fill_area c ac) ac.interfaces;
}

areas_defaults : OspfConfig → List (ℕ × AreaConfig) → List (ℕ × AreaConfig)
unfolding area_defaults
areas_defaults c [] = []
areas_defaults c ((k, ac) ∷ m) = (k, area_defaults c ac) ∷ areas_defaults c m

abbrev pub initial : OspfConfig
initial = record {
  router_id = 0;
  cost = 1;
  hello_interval = 10;
  router_dead_interval = 40;
  areas = [];
}

-- The parser of addresses is `netip.ParseAddr`; `none` is its error.
module _ (parse_addr : Str → Option Addr) where
  abbrev v4_number : Option Addr → Option ℕ
  v4_number (some (ipv4 n)) = some n
  v4_number _ = none

  abbrev or_else : Option ℕ → Option ℕ → Option ℕ
  or_else (some n) second = some n
  or_else none second = second

  -- `parseID(s)`: a number, or the four bytes of an IPv4 address, big-endian.
  unfoldable pub parse_id : Str → Option ℕ
  unfolding parse_uint
  parse_id s = or_else (parse_uint s) (v4_number (parse_addr s))

  abbrev with_id : Error → Option ℕ → Result Error ℕ
  with_id e none = err e
  with_id e (some n) = ok n

  -- One round of the loop of `parseInterfaceConfig`.
  interface_entry : Str → Value → InterfaceConfig → Result Error InterfaceConfig
  interface_entry k v ic =
      if str_eq k (codes "cost")
      then (do n ← parse_field cost u16_max v; ok (record ic { cost = n }))
      else if str_eq k (codes "hello-interval")
      then (do n ← parse_field hello_interval u16_max v; ok (record ic { hello_interval = n }))
      else if str_eq k (codes "dead-interval")
      then (do n ← parse_field dead_interval u32_max v; ok (record ic { router_dead_interval = n }))
      else err (unknown_key k)

  interface_entries : Entries → InterfaceConfig → Result Error InterfaceConfig
  interface_entries nil ic = ok ic
  interface_entries (entry k v es) ic = do ic' ← interface_entry k v ic; interface_entries es ic'

  -- `parseInterfaceConfig(areaName, name, data)`; the name only goes into messages.
  pub parse_interface_config : Str → Entries → Result Error InterfaceConfig
  parse_interface_config area_name entries = do
    id ← with_id bad_area_id (parse_id area_name)
    interface_entries entries
        (record { area_id = id; cost = 0; hello_interval = 0; router_dead_interval = 0 })

  interface_value : Str → Value → Result Error InterfaceConfig
  interface_value area (mapping es) = parse_interface_config area es
  interface_value area _ = err interface_not_map

  -- The last branch of the chain in `parseAreaConfig`, on the name behind `interface `.
  interface_key : Str → Str → Option Str → Value → AreaConfig → Result Error AreaConfig
  interface_key area k none v ac = err (unknown_key k)
  interface_key area k (some name) v ac = do
    ic ← interface_value area v
    ok (record ac { interfaces = put name ic ac.interfaces })

  area_entry : Str → Str → Value → AreaConfig → Result Error AreaConfig
  area_entry area k v ac =
      if str_eq k (codes "cost")
      then (do n ← parse_field cost u16_max v; ok (record ac { cost = n }))
      else if str_eq k (codes "hello-interval")
      then (do n ← parse_field hello_interval u16_max v; ok (record ac { hello_interval = n }))
      else if str_eq k (codes "dead-interval")
      then (do n ← parse_field dead_interval u32_max v; ok (record ac { router_dead_interval = n }))
      else interface_key area k (strip_prefix (codes "interface ") k) v ac

  area_entries : Str → Entries → AreaConfig → Result Error AreaConfig
  area_entries area nil ac = ok ac
  area_entries area (entry k v es) ac = do ac' ← area_entry area k v ac; area_entries area es ac'

  -- `parseAreaConfig(areaID, data)`
  pub parse_area_config : Str → Entries → Result Error AreaConfig
  parse_area_config area es =
      area_entries area es
        (record { cost = 0; hello_interval = 0; router_dead_interval = 0; interfaces = [] })

  area_value : Str → Value → Result Error AreaConfig
  area_value area (mapping es) = parse_area_config area es
  area_value area _ = err area_not_map

  area_key : Str → Option Str → Value → OspfConfig → Result Error OspfConfig
  area_key k none v c = err (unknown_key k)
  area_key k (some name) v c = do
    id ← with_id bad_area_id (parse_id name)
    ac ← area_value name v
    ok (record c { areas = put_area id ac c.areas })

  router_id : Value → Result Error ℕ
  router_id (text s) = with_id bad_router_id (parse_id s)
  router_id (int (negsuc n)) = err router_id_negative
  router_id (int (pos n)) = if ltb u32_max n then err router_id_too_big else ok n
  router_id _ = err bad_router_id

  -- One round of the loop of `parseOSPFConfig`.
  ospf_entry : Str → Value → OspfConfig → Result Error OspfConfig
  ospf_entry k v c =
      if str_eq k (codes "router-id")
      then (do n ← router_id v; ok (record c { router_id = n }))
      else if str_eq k (codes "cost")
      then (do n ← parse_field cost u16_max v; ok (record c { cost = n }))
      else if str_eq k (codes "hello-interval")
      then (do n ← parse_field hello_interval u16_max v; ok (record c { hello_interval = n }))
      else if str_eq k (codes "dead-interval")
      then (do n ← parse_field dead_interval u32_max v; ok (record c { router_dead_interval = n }))
      else area_key k (strip_prefix (codes "area ") k) v c

  pub ospf_entries : Entries → OspfConfig → Result Error OspfConfig
  ospf_entries nil c = ok c
  ospf_entries (entry k v es) c = do c' ← ospf_entry k v c; ospf_entries es c'

  abbrev checked : OspfConfig → Option AreaConfig → Result Error OspfConfig
  checked c none = err no_backbone
  checked c (some _) = ok c

  -- `parseOSPFConfig(data)`
  pub parse_ospf_config : Entries → Result Error OspfConfig
  parse_ospf_config es = do
    c ← ospf_entries es initial
    let filled = record c { areas = areas_defaults c c.areas }
    checked filled (get_area 0 filled.areas)
