-- ===== src/Tests/Instance.antt =====
-- ospf/ospf.go: a machine with one network interface, which the configuration names.
use chatter.Base.{true, false, List, [], ◌∷◌, none, some, Str, codes, ◌≡◌, refl, all_nil, arith}
use chatter.Base.Result.{ok}
use chatter.Config.Ospf.Tests.{config}
use chatter.Ospf.Interface.{new_interface}
use chatter.Ospf.Instance.{
  Prefix, v4, v6, Netif, NetifAndPrefixes, Instance, v4_prefixes, put_netif, name_netifs, has_key,
  update_interfaces,
}
use chatter.Ospf.Instance.Keys.{Valid}
use chatter.Ospf.Instance.Update.{Refines, update_interfaces-Refines}
use chatter.Ospf.Instance.Agree.{Agrees, settled, changes-Agrees}

abbrev local : Prefix
local = record { addr = 0xc0a80101; bits = 24 }

abbrev eth0 : Netif
eth0 = record {
  name = codes "eth0";
  up = true;
  loop = false;
  addrs = some (some (v4 local) ∷ some (v6 1 64) ∷ none ∷ []);
}

abbrev nets : List (Str × NetifAndPrefixes)
nets = (codes "eth0", (eth0, local ∷ [])) ∷ []

abbrev started : Instance
started = record {
  router_id = 9;
  areas = 0 ∷ [];
  interfaces = [];
  cancel_funcs = [];
  config = config;
  actions = [];
}

nets_lem : name_netifs (eth0 ∷ []) [] ≡ ok nets
unfolding name_netifs put_netif v4_prefixes
nets_lem = refl

started-Valid : Valid started
unfolding has_key
started-Valid = record { prefixes = all_nil; cancellable = λ x h. absurd (grind (arith, h)) }

update_interfaces-Refines_example :
    (j : Instance) × (update_interfaces (λ id. true) (λ id. true) (some (eth0 ∷ [])) started ≡ ok j)
    × Refines nets started j
update_interfaces-Refines_example =
    update_interfaces-Refines (λ id. true) (λ id. refl) (λ id. true) (eth0 ∷ []) nets started
      nets_lem started-Valid

changes-Agrees_example :
    Agrees eth0 (new_interface 10 40 1).state (settled true eth0 (new_interface 10 40 1))
changes-Agrees_example = changes-Agrees true eth0 (new_interface 10 40 1)
