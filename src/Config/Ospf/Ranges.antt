-- ===== src/Config/Ospf/Ranges.antt =====
-- The numbers of a parsed OSPF section: within their types, never 0, filled in by the level above.
use chatter.Base.{
  ℕ, ◌≤◌, List, Option, none, some, ◌≡◌, refl, subst, arith, All, all_nil, all_cons, Str,
}
use chatter.Base.Result.{ok, >>=-eq-ok, ok-injective}
use chatter.Commands.Matching.{Addr}
use chatter.Config.Ospf.{
  Entries, u16_max, u32_max, InterfaceConfig, AreaConfig, OspfConfig, initial, get_area, or_default,
  interface_defaults, interfaces_defaults, fill_area, area_defaults, areas_defaults, ospf_entries,
  parse_ospf_config, checked,
}
use chatter.Config.Ospf.Reading.{IsRead, IsReadArea, IsReadOspf, ospf_entries-IsReadOspf}

-- The numbers with defaults filled in: all at least 1, and within their types.
abbrev pub InType : ℕ → ℕ → Type 0
InType top n = (1 ≤ n) × (n ≤ top)

pub record IsFilled (ic : InterfaceConfig) : Type 0 where
  pub cost : InType u16_max ic.cost
  pub hello : InType u16_max ic.hello_interval
  pub dead : InType u32_max ic.router_dead_interval

pub record IsFilledArea (ac : AreaConfig) : Type 0 where
  pub cost : InType u16_max ac.cost
  pub hello : InType u16_max ac.hello_interval
  pub dead : InType u32_max ac.router_dead_interval
  pub interfaces : All (λ e. IsFilled e.1) ac.interfaces

pub record IsFilledOspf (c : OspfConfig) : Type 0 where
  pub cost : InType u16_max c.cost
  pub hello : InType u16_max c.hello_interval
  pub dead : InType u32_max c.router_dead_interval
  pub areas : All (λ e. IsFilledArea e.1) c.areas
  pub backbone : AreaConfig
  pub has_backbone : get_area 0 c.areas ≡ some backbone

interface_defaults-IsFilled :
    (ac : AreaConfig) (ic : InterfaceConfig)
    → InType u16_max ac.cost
    → InType u16_max ac.hello_interval
    → InType u32_max ac.router_dead_interval
    → IsRead ic
    → IsFilled (interface_defaults ac ic)
unfolding interface_defaults
interface_defaults-IsFilled ac ic a b d g = ground arith

interfaces_defaults-IsFilled :
    (ac : AreaConfig) {m : List (Str × InterfaceConfig)}
    → InType u16_max ac.cost
    → InType u16_max ac.hello_interval
    → InType u32_max ac.router_dead_interval
    → All (λ e. IsRead e.1) m
    → All (λ e. IsFilled e.1) (interfaces_defaults ac m)
unfolding interfaces_defaults
interfaces_defaults-IsFilled ac a b d all_nil = all_nil
interfaces_defaults-IsFilled ac a b d (all_cons {x = e} g gs) =
    all_cons (interface_defaults-IsFilled ac e.1 a b d g) (interfaces_defaults-IsFilled ac a b d gs)

or_default-InType : (top x d : ℕ) → x ≤ top → InType top d → InType top (or_default x d)
or_default-InType top x d h g = ground arith

area_defaults-IsFilledArea :
    (c : OspfConfig) (ac : AreaConfig)
    → IsReadOspf c
    → IsReadArea ac
    → IsFilledArea (area_defaults c ac)
unfolding area_defaults
area_defaults-IsFilledArea c ac g r =
    let x = or_default-InType u16_max ac.cost c.cost r.cost g.cost in
    let y = or_default-InType u16_max ac.hello_interval c.hello_interval r.hello g.hello in
    let z =
      or_default-InType u32_max ac.router_dead_interval c.router_dead_interval r.dead g.dead in
    record {
      cost = x;
      hello = y;
      dead = z;
      interfaces = interfaces_defaults-IsFilled (fill_area c ac) x y z r.interfaces;
    }

areas_defaults-IsFilledArea :
    (c : OspfConfig) {m : List (ℕ × AreaConfig)}
    → IsReadOspf c
    → All (λ e. IsReadArea e.1) m
    → All (λ e. IsFilledArea e.1) (areas_defaults c m)
unfolding areas_defaults
areas_defaults-IsFilledArea c g all_nil = all_nil
areas_defaults-IsFilledArea c g (all_cons {x = e} r rs) =
    all_cons (area_defaults-IsFilledArea c e.1 g r) (areas_defaults-IsFilledArea c g rs)

module _ (parse_addr : Str → Option Addr) where
  checked-ok :
      (c : OspfConfig) (o : Option AreaConfig) {c' : OspfConfig}
      → checked parse_addr c o ≡ ok c'
      → (ac : AreaConfig) × (o ≡ some ac) × (c ≡ c')
  checked-ok c none e = cc
  checked-ok c (some ac) e = (ac, refl, ok-injective e)

  -- A section that is accepted has the backbone area, and every cost and interval of it, of its
  -- areas and of their interfaces is at least 1 and fits its type.
  pub parse_ospf_config-IsFilledOspf :
      (es : Entries) {c : OspfConfig} → parse_ospf_config parse_addr es ≡ ok c → IsFilledOspf c
  unfolding parse_ospf_config
  parse_ospf_config-IsFilledOspf es e =
      let (c, a, e2) = >>=-eq-ok (ospf_entries parse_addr es initial) _ e in
      let (ac, b, q) = checked-ok (record c { areas = areas_defaults c c.areas }) _ e2 in
      let g =
        ospf_entries-IsReadOspf parse_addr es initial
          (record { cost = omega arith; hello = omega arith; dead = omega arith; areas = all_nil })
          a in
      subst IsFilledOspf q (record {
        cost = g.cost;
        hello = g.hello;
        dead = g.dead;
        areas = areas_defaults-IsFilledArea c g g.areas;
        backbone = ac;
        has_backbone = b;
      })
