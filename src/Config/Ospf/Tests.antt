-- ===== src/Config/Ospf/Tests.antt =====
-- config/ospf.go: a section with one area and one interface.
use chatter.Base.{[], ◌∷◌, Option, none, ◌≡◌, refl, Str, codes, str_eq, strip_prefix}
use chatter.Base.Int.{pos}
use chatter.Base.Result.{ok}
use chatter.Commands.Matching.{Addr}
use chatter.Config.Ospf.{
  Entries, nil, entry, mapping, int, text, OspfConfig, parse_ospf_config, ospf_entries, ospf_entry,
  area_key, area_value, parse_area_config, area_entries, area_entry, interface_key, interface_value,
  parse_interface_config, interface_entries, interface_entry, router_id, parse_id, parse_uint,
  digits_from, parse_field, put, put_area, get_area, areas_defaults, area_defaults,
  interfaces_defaults, interface_defaults,
}
use chatter.Config.Ospf.Ranges.{IsFilledOspf, parse_ospf_config-IsFilledOspf}

-- A parser of addresses that knows none; the section writes its ids as numbers.
abbrev pub parse_none : Str → Option Addr
parse_none s = none

abbrev pub section : Entries
section = entry (codes "cost") (int (pos 7)) (
    entry (codes "router-id") (text (codes "9")) (
      entry (codes "area 0")
        (mapping (
          entry (codes "interface eth0")
            (mapping (entry (codes "hello-interval") (int (pos 5)) nil))
            (entry (codes "dead-interval") (int (pos 20)) nil)))
        nil))

abbrev pub config : OspfConfig
config = record {
  router_id = 9;
  cost = 7;
  hello_interval = 10;
  router_dead_interval = 40;
  areas =
      (
        0,
        record {
          cost = 7;
          hello_interval = 10;
          router_dead_interval = 20;
          interfaces =
              (
                codes "eth0",
                record { area_id = 0; cost = 7; hello_interval = 5; router_dead_interval = 20 },
              )
              ∷ [];
        },
      )
      ∷ [];
}

pub parsed_section : parse_ospf_config parse_none section ≡ ok config
unfolding parse_ospf_config ospf_entries ospf_entry area_key area_value parse_area_config
    area_entries area_entry interface_key interface_value parse_interface_config interface_entries
    interface_entry router_id parse_id parse_uint digits_from parse_field put put_area get_area
    areas_defaults area_defaults interfaces_defaults interface_defaults strip_prefix str_eq
parsed_section = refl

parse_ospf_config-IsFilledOspf_example : IsFilledOspf config
parse_ospf_config-IsFilledOspf_example =
    parse_ospf_config-IsFilledOspf parse_none section parsed_section
