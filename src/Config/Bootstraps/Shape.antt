-- ===== src/Config/Bootstraps/Shape.antt =====
-- config/config.go: the sections of an accepted configuration, and the graph of its services.
use chatter.Base.{
  ℕ, Bool, true, false, List, [], ◌∷◌, Option, none, some, Str, codes, str_eq, ◌≡◌, refl, sym,
  subst, ◌⊎◌, inl, inr, Bool-cases, arith,
}
use chatter.Base.Result.{ok, >>=-eq-ok, ok-injective, ok-ne-err}
use chatter.Commands.Matching.{Addr}
use chatter.Config.Service.{
  ServiceId, service_api_server, service_interface_monitor, service_ospf, id_eq, id_eq_iff, has,
}
use chatter.Config.Ospf.{OspfConfig, Entries, nil, entry}
use chatter.Config.Ospf.Methods.{should_run}
use chatter.Config.Graph.{Graph, keys, node_deps, ids, put_node}
use chatter.Config.Graph.Visits.{Within, has-cons, has_none}
use chatter.Config.Graph.Sorted.{IsPlan}
use chatter.Config.Graph.Order.{Ranked}
use chatter.Config.Bootstraps.{
  ProtocolConfig, ospf, Config, put_config, config_of, ospf_section, top_entries, unmarshalled,
  wanted, parse_config, load_config, add_nodes, service_graph,
}

-- The configuration has at most the OSPF section.
pub data Sections : Config → Type 0 where
  no_sections : Sections (record { protocol_configs = [] })
  ospf_only :
      (conf : OspfConfig) → Sections (record { protocol_configs = (service_ospf, ospf conf) ∷ [] })

put_config-Sections :
    (c : Config) (conf : OspfConfig)
    → Sections c
    → Sections
        (record { protocol_configs = put_config service_ospf (ospf conf) c.protocol_configs })
unfolding put_config id_eq
put_config-Sections _ conf no_sections = ospf_only conf
put_config-Sections _ conf (ospf_only old) = ospf_only conf

module _ (parse_addr : Str → Option Addr) (unmarshal : Str → Option Entries)
    (read_file : Str → Option Str) where
  top_entries-Sections :
      (es : Entries) (c d : Config)
      → Sections c
      → top_entries parse_addr unmarshal read_file es c ≡ ok d
      → Sections d
  unfolding top_entries
  top_entries-Sections nil c d s e = subst Sections (ok-injective e) s
  top_entries-Sections (entry k v es) c d s e = elim (Bool-cases (str_eq k (codes "ospf"))) [
    | inl y ↦
        let (conf, a, r) =
          >>=-eq-ok (ospf_section parse_addr unmarshal read_file v) _ (rw y at e) in
        top_entries-Sections es _ d (put_config-Sections c conf s) r
    | inr n ↦ absurd (ok-ne-err (sym (rw n at e)))
  ]

  pub load_config-Sections :
      (path : Str) (d : Config)
      → load_config parse_addr unmarshal read_file path ≡ ok d
      → Sections d
  unfolding load_config parse_config
  load_config-Sections path d e =
      let (s, a, p) = >>=-eq-ok (wanted (read_file path)) _ e in
      let (c, b, q) = >>=-eq-ok (parse_config parse_addr unmarshal read_file s) _ p in
      let (es, x, r) = >>=-eq-ok (unmarshalled (unmarshal s)) _ b in
      subst Sections (ok-injective q) (top_entries-Sections es _ c no_sections r)

-- Does the configuration make the OSPF service run?
abbrev pub ospf_runs : Option ProtocolConfig → Bool
ospf_runs none = false
ospf_runs (some (ospf c)) = should_run c

-- The graph of the services without OSPF, and with it.
abbrev pub idle : Graph
idle = record { nodes = (service_api_server, []) ∷ [] }

abbrev pub running : Graph
running = record {
  nodes = (service_api_server, []) ∷ (service_ospf, service_interface_monitor ∷ []) ∷ [];
}

pub data Shape (c : Config) : Type 0 where
  without :
      service_graph c ≡ idle
      → ospf_runs (config_of c.protocol_configs service_ospf) ≡ false
      → Shape c
  with_ospf :
      service_graph c ≡ running
      → ospf_runs (config_of c.protocol_configs service_ospf) ≡ true
      → Shape c

pub Sections-Shape : {c : Config} → Sections c → Shape c
unfolding add_nodes config_of put_node id_eq str_eq
Sections-Shape no_sections = without refl refl
Sections-Shape (ospf_only conf) = elim (Bool-cases (should_run conf)) [
  | inl y ↦ with_ospf (rw y refl) (rw y refl)
  | inr n ↦ without (rw n refl) (rw n refl)
]

abbrev pub by_type : ServiceId → ℕ
by_type s = s.service_type

idle-Ranked : Ranked idle by_type
unfolding node_deps
idle-Ranked = record {
  falls = λ s d h. elim (Bool-cases (id_eq service_api_server s)) [
    | inl y ↦ absurd (has_none d (rw y at h))
    | inr n ↦ absurd (has_none d (rw n at h))
  ];
}

pub running-Ranked : Ranked running by_type
unfolding node_deps
running-Ranked = record {
  falls = λ s d h. elim (Bool-cases (id_eq service_api_server s)) [
    | inl y ↦ absurd (has_none d (rw y at h))
    | inr n ↦ elim (Bool-cases (id_eq service_ospf s)) [
      | inr m ↦ absurd (has_none d (rw (n, m) at h))
      | inl y ↦
          let h' : has (service_interface_monitor ∷ []) d ≡ true = rw (n, y) at h in
          elim (has-cons d service_interface_monitor [] h') [
            | inr f ↦ absurd (has_none d f)
            | inl e ↦ let es = (id_eq_iff service_ospf s).0 y in rw (e, sym es) (omega arith)
          ]
    ]
  ];
}

pub Shape-Ranked : {c : Config} → Shape c → Ranked (service_graph c) by_type
Shape-Ranked (without e r) = rw e idle-Ranked
Shape-Ranked (with_ospf e r) = rw e running-Ranked

-- What a plan of the two graphs lists.
pub record Listed (starts : Bool) (k : List ServiceId) : Type 0 where
  pub api : has k service_api_server ≡ true
  pub ospf_listed : has k service_ospf ≡ starts
  pub monitor : has k service_interface_monitor ≡ starts
  pub rest :
      (x : ServiceId)
      → has k x ≡ true
      → (x ≡ service_api_server) ⊎ (x ≡ service_ospf) ⊎ (x ≡ service_interface_monitor)

not_listed : (k l : List ServiceId) (x : ServiceId) → Within k l → has l x ≡ false → has k x ≡ false
not_listed k l x w n = elim (Bool-cases (has k x)) [
  | inr m ↦ m
  | inl y ↦ absurd (grind (arith, w.within x y, n))
]

idle-Listed : {k : List ServiceId} → IsPlan idle k → Listed false k
unfolding keys ids has id_eq str_eq
idle-Listed {k} p = record {
  api = p.nodes_listed.within service_api_server refl;
  ospf_listed = not_listed k (ids idle.nodes) service_ospf p.named refl;
  monitor = not_listed k (ids idle.nodes) service_interface_monitor p.named refl;
  rest = λ x h. elim (has-cons x service_api_server [] (p.named.within x h)) [
    | inl e ↦ inl e
    | inr f ↦ absurd (has_none x f)
  ];
}

running-Listed : {k : List ServiceId} → IsPlan running k → Listed true k
unfolding keys ids has id_eq str_eq node_deps
running-Listed p = record {
  api = p.nodes_listed.within service_api_server refl;
  ospf_listed = p.nodes_listed.within service_ospf refl;
  monitor =
      (p.deps_listed service_ospf (p.nodes_listed.within service_ospf refl)).within
        service_interface_monitor refl;
  rest = λ x h.
      elim (has-cons x service_api_server (service_ospf ∷ service_interface_monitor ∷ [])
        (p.named.within x h)) [
          | inl e ↦ inl e
          | inr f ↦ elim (has-cons x service_ospf (service_interface_monitor ∷ []) f) [
            | inl e ↦ inr (inl e)
            | inr g ↦ elim (has-cons x service_interface_monitor [] g) [
              | inl e ↦ inr (inr e)
              | inr n ↦ absurd (has_none x n)
            ]
          ]
        ];
}

pub Shape-Listed :
    {c : Config} {k : List ServiceId}
    → Shape c
    → IsPlan (service_graph c) k
    → Listed (ospf_runs (config_of c.protocol_configs service_ospf)) k
Shape-Listed (without e r) p = rw r (idle-Listed (rw e at p))
Shape-Listed (with_ospf e r) p = rw r (running-Listed (rw e at p))
