-- ===== src/Config/Service.antt =====
-- config/config.go: the names of the services.
use chatter.Base.{
  ℕ, Bool, true, false, ◌&&◌, ◌||◌, List, [], ◌∷◌, ◌++◌, ◌==◌, Str, codes, str_eq, str_eq_iff, ◌≡◌,
  refl, ◌↔◌, arith,
}

-- `ServiceType`, an `int` whose constants count from 0.
abbrev pub ServiceType : Type 0
ServiceType = ℕ

pub record ServiceId : Type 0 where
  pub service_type : ServiceType
  pub name : Str

abbrev pub service_api_server : ServiceId
service_api_server = record { service_type = 0; name = codes "APIServer" }

abbrev pub service_interface_monitor : ServiceId
service_interface_monitor = record { service_type = 1; name = codes "InterfaceMonitor" }

abbrev pub service_ospf : ServiceId
service_ospf = record { service_type = 2; name = codes "OSPF" }

-- `a == b` on service ids, field by field.
unfoldable pub id_eq : ServiceId → ServiceId → Bool
unfolding str_eq
id_eq a b = a.service_type == b.service_type && str_eq a.name b.name

pub id_eq_iff : (a b : ServiceId) → (id_eq a b ≡ true) ↔ (a ≡ b)
unfolding id_eq
id_eq_iff a b = ground (arith, str_eq_iff a.name b.name)

-- Is the id a key of the map, or in the list?
unfoldable pub has : List ServiceId → ServiceId → Bool
unfolding id_eq
has [] x = false
has (y ∷ ys) x = id_eq y x || has ys x

pub has-append :
    (xs ys : List ServiceId) (x : ServiceId) → has (xs ++ ys) x ≡ (has xs x || has ys x)
unfolding has
has-append [] ys x = refl
has-append (a ∷ xs) ys x = ground (arith, has-append xs ys x)
