-- ===== src/Config/Ospf/Reading.antt =====
-- config/ospf.go: the numbers that the loops over a section read, before the defaults.
use chatter.Base.{
  ℕ, ◌≤◌, List, Option, none, some, ◌≡◌, subst, arith, All, all_nil, all_cons, ◌==◌, Bool-cases,
  inl, inr, Str, codes, str_eq, strip_prefix,
}
use chatter.Base.Int.{pos, negsuc}
use chatter.Base.Result.{Result, ok, err, >>=-eq-ok, ok-injective}
use chatter.Commands.Matching.{Addr}
use chatter.Config.Ospf.{
  Value, text, int, mapping, other, Entries, nil, entry, Field, cost, hello_interval, dead_interval,
  Error, u16_max, u32_max, parse_field, InterfaceConfig, AreaConfig, OspfConfig, bad_area_id, put,
  put_area, interface_entry, interface_entries, interface_value, interface_key, with_id, parse_id,
  area_entry, area_entries, area_value, area_key, ospf_entry, ospf_entries, parse_area_config,
  parse_interface_config,
}

abbrev InRange : ℕ → Result Error ℕ → Type 0
InRange top (ok n) = (1 ≤ n) × (n ≤ top)
InRange top (err e) = Unit

parse_field-InRange : (f : Field) (top : ℕ) (v : Value) → InRange top (parse_field f top v)
unfolding parse_field
parse_field-InRange f top (text s) = tt
parse_field-InRange f top (int (pos v)) = ground arith
parse_field-InRange f top (int (negsuc v)) = tt
parse_field-InRange f top (mapping es) = tt
parse_field-InRange f top other = tt

-- The numbers that were read: within their types, and 0 where nothing was given.
pub record IsRead (ic : InterfaceConfig) : Type 0 where
  pub cost : ic.cost ≤ u16_max
  pub hello : ic.hello_interval ≤ u16_max
  pub dead : ic.router_dead_interval ≤ u32_max

pub record IsReadArea (ac : AreaConfig) : Type 0 where
  pub cost : ac.cost ≤ u16_max
  pub hello : ac.hello_interval ≤ u16_max
  pub dead : ac.router_dead_interval ≤ u32_max
  pub interfaces : All (λ e. IsRead e.1) ac.interfaces

pub record IsReadOspf (c : OspfConfig) : Type 0 where
  pub cost : (1 ≤ c.cost) × (c.cost ≤ u16_max)
  pub hello : (1 ≤ c.hello_interval) × (c.hello_interval ≤ u16_max)
  pub dead : (1 ≤ c.router_dead_interval) × (c.router_dead_interval ≤ u32_max)
  pub areas : All (λ e. IsReadArea e.1) c.areas

put-IsRead :
    (k : Str) (v : InterfaceConfig) {m : List (Str × InterfaceConfig)}
    → IsRead v
    → All (λ e. IsRead e.1) m
    → All (λ e. IsRead e.1) (put k v m)
unfolding put
put-IsRead k v g all_nil = all_cons g all_nil
put-IsRead k v g (all_cons {x = j} x xs) = elim (Bool-cases (str_eq j.0 k)) [
  | inl b ↦ rw (b, put) (all_cons g xs)
  | inr b ↦ rw (b, put) (all_cons x (put-IsRead k v g xs))
]

put_area-IsReadArea :
    (k : ℕ) (v : AreaConfig) {m : List (ℕ × AreaConfig)}
    → IsReadArea v
    → All (λ e. IsReadArea e.1) m
    → All (λ e. IsReadArea e.1) (put_area k v m)
unfolding put_area
put_area-IsReadArea k v g all_nil = all_cons g all_nil
put_area-IsReadArea k v g (all_cons {x = j} x xs) = elim (Bool-cases (j.0 == k)) [
  | inl b ↦ rw (b, put_area) (all_cons g xs)
  | inr b ↦ rw (b, put_area) (all_cons x (put_area-IsReadArea k v g xs))
]

module _ (parse_addr : Str → Option Addr) where
  interface_entry-IsRead :
      (k : Str) (v : Value) (ic : InterfaceConfig) {ic' : InterfaceConfig}
      → IsRead ic
      → interface_entry parse_addr k v ic ≡ ok ic'
      → IsRead ic'
  unfolding interface_entry
  interface_entry-IsRead k v ic g e = ground (
    arith,
    parse_field-InRange cost u16_max v,
    parse_field-InRange hello_interval u16_max v,
    parse_field-InRange dead_interval u32_max v,
  )

  interface_entries-IsRead :
      (es : Entries) (ic : InterfaceConfig) {ic' : InterfaceConfig}
      → IsRead ic
      → interface_entries parse_addr es ic ≡ ok ic'
      → IsRead ic'
  unfolding interface_entries
  interface_entries-IsRead nil ic g e = subst IsRead (ok-injective e) g
  interface_entries-IsRead (entry k v es) ic g e =
      let (ic1, a, e2) = >>=-eq-ok (interface_entry parse_addr k v ic) _ e in
      interface_entries-IsRead es ic1 (interface_entry-IsRead k v ic g a) e2

  interface_value-IsRead :
      (area : Str) (v : Value) {ic : InterfaceConfig}
      → interface_value parse_addr area v ≡ ok ic
      → IsRead ic
  unfolding interface_value parse_interface_config
  interface_value-IsRead area (mapping es) e =
      let (id, a, e2) = >>=-eq-ok (with_id parse_addr bad_area_id (parse_id parse_addr area)) _ e in
      interface_entries-IsRead es _
        (record { cost = omega arith; hello = omega arith; dead = omega arith }) e2
  interface_value-IsRead area (text s) e = cc
  interface_value-IsRead area (int n) e = cc
  interface_value-IsRead area other e = cc

  interface_key-IsReadArea :
      (area k : Str) (name : Option Str) (v : Value) (ac : AreaConfig) {ac' : AreaConfig}
      → IsReadArea ac
      → interface_key parse_addr area k name v ac ≡ ok ac'
      → IsReadArea ac'
  unfolding interface_key
  interface_key-IsReadArea area k none v ac g e = cc
  interface_key-IsReadArea area k (some name) v ac g e =
      let (ic, a, e2) = >>=-eq-ok (interface_value parse_addr area v) _ e in
      subst IsReadArea (ok-injective e2) (record {
        cost = g.cost;
        hello = g.hello;
        dead = g.dead;
        interfaces = put-IsRead name ic (interface_value-IsRead area v a) g.interfaces;
      })

  -- The part of an area's entry behind the three numbers.
  area_entry-IsReadArea :
      (area k : Str) (v : Value) (ac : AreaConfig) {ac' : AreaConfig}
      → IsReadArea ac
      → area_entry parse_addr area k v ac ≡ ok ac'
      → IsReadArea ac'
  unfolding area_entry
  area_entry-IsReadArea area k v ac {ac'} g e = ground (
    arith,
    parse_field-InRange cost u16_max v,
    parse_field-InRange hello_interval u16_max v,
    parse_field-InRange dead_interval u32_max v,
    interface_key-IsReadArea area k (strip_prefix (codes "interface ") k) v ac {ac' = ac'} g,
  )

  area_entries-IsReadArea :
      (area : Str) (es : Entries) (ac : AreaConfig) {ac' : AreaConfig}
      → IsReadArea ac
      → area_entries parse_addr area es ac ≡ ok ac'
      → IsReadArea ac'
  unfolding area_entries
  area_entries-IsReadArea area nil ac g e = subst IsReadArea (ok-injective e) g
  area_entries-IsReadArea area (entry k v es) ac g e =
      let (ac1, a, e2) = >>=-eq-ok (area_entry parse_addr area k v ac) _ e in
      area_entries-IsReadArea area es ac1 (area_entry-IsReadArea area k v ac g a) e2

  area_value-IsReadArea :
      (area : Str) (v : Value) {ac : AreaConfig}
      → area_value parse_addr area v ≡ ok ac
      → IsReadArea ac
  unfolding area_value parse_area_config
  area_value-IsReadArea area (mapping es) e =
      area_entries-IsReadArea area es _
        (record {
          cost = omega arith;
          hello = omega arith;
          dead = omega arith;
          interfaces = all_nil;
        })
        e
  area_value-IsReadArea area (text s) e = cc
  area_value-IsReadArea area (int n) e = cc
  area_value-IsReadArea area other e = cc

  area_key-IsReadOspf :
      (k : Str) (name : Option Str) (v : Value) (c : OspfConfig) {c' : OspfConfig}
      → IsReadOspf c
      → area_key parse_addr k name v c ≡ ok c'
      → IsReadOspf c'
  unfolding area_key
  area_key-IsReadOspf k none v c g e = cc
  area_key-IsReadOspf k (some name) v c g e =
      let (id, a, e2) = >>=-eq-ok (with_id parse_addr bad_area_id (parse_id parse_addr name)) _ e in
      let (ac, b, e3) = >>=-eq-ok (area_value parse_addr name v) _ e2 in
      subst IsReadOspf (ok-injective e3) (record {
        cost = g.cost;
        hello = g.hello;
        dead = g.dead;
        areas = put_area-IsReadArea id ac (area_value-IsReadArea name v b) g.areas;
      })

  ospf_entry-IsReadOspf :
      (k : Str) (v : Value) (c : OspfConfig) {c' : OspfConfig}
      → IsReadOspf c
      → ospf_entry parse_addr k v c ≡ ok c'
      → IsReadOspf c'
  unfolding ospf_entry
  ospf_entry-IsReadOspf k v c {c'} g e = ground (
    arith,
    parse_field-InRange cost u16_max v,
    parse_field-InRange hello_interval u16_max v,
    parse_field-InRange dead_interval u32_max v,
    area_key-IsReadOspf k (strip_prefix (codes "area ") k) v c {c' = c'} g,
  )

  pub ospf_entries-IsReadOspf :
      (es : Entries) (c : OspfConfig) {c' : OspfConfig}
      → IsReadOspf c
      → ospf_entries parse_addr es c ≡ ok c'
      → IsReadOspf c'
  unfolding ospf_entries
  ospf_entries-IsReadOspf nil c g e = subst IsReadOspf (ok-injective e) g
  ospf_entries-IsReadOspf (entry k v es) c g e =
      let (c1, a, e2) = >>=-eq-ok (ospf_entry parse_addr k v c) _ e in
      ospf_entries-IsReadOspf es c1 (ospf_entry-IsReadOspf k v c g a) e2
