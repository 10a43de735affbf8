-- ===== src/Config/Bootstraps/Copies.antt =====
-- config/config.go and config/ospf.go: a copy of a configuration.
use chatter.Base.{
  ℕ, Bool, false, List, [], ◌∷◌, ◌++◌, ◌==◌, Str, str_eq, All, all_nil, all_cons, All-append,
  append_assoc, append-nil, ◌≡◌, refl, sym, ◌∙◌,
}
use chatter.Config.Service.{ServiceId, id_eq}
use chatter.Config.Ospf.{InterfaceConfig, AreaConfig, OspfConfig, put, put_area}
use chatter.Config.Ospf.Methods.{put_all, copy_area, copy_areas, copy}
use chatter.Config.Bootstraps.{ProtocolConfig, ospf, Config, put_config, copy_configs, copy_config}

module _ {K : Type 0} {V : Type 0} (eq : K → K → Bool) where
  -- No key of the entries comes twice, as in every map.
  pub data Once : List (K × V) → Type 0 where
    once_nil : Once []
    once_cons :
        {k : K} {v : V} {m : List (K × V)}
        → All (λ (e : K × V). eq k e.0 ≡ false) m
        → Once m
        → Once ((k, v) ∷ m)

  -- None of the entries still to come has a key of those that are there.
  abbrev Free : List (K × V) → List (K × V) → Type 0
  Free new m = All (λ (f : K × V). All (λ (e : K × V). eq e.0 f.0 ≡ false) new) m

  abbrev fill : (K → V → List (K × V) → List (K × V)) → List (K × V) → List (K × V) → List (K × V)
  fill add [] new = new
  fill add ((k, v) ∷ m) new = fill add m (add k v new)

  -- An assignment to a key that is not there appends, in this order of the entries.
  record Appends (add : K → V → List (K × V) → List (K × V)) : Type 0 where
    appends :
        (k : K) (v : V) (new : List (K × V))
        → All (λ (e : K × V). eq e.0 k ≡ false) new
        → add k v new ≡ new ++ (k, v) ∷ []

  Free-snoc :
      {k : K} (v : V) (new : List (K × V)) {m : List (K × V)}
      → All (λ (e : K × V). eq k e.0 ≡ false) m
      → Free new m
      → Free (new ++ (k, v) ∷ []) m
  Free-snoc v new all_nil all_nil = all_nil
  Free-snoc v new (all_cons h w) (all_cons f g) =
      all_cons (All-append f (all_cons h all_nil)) (Free-snoc v new w g)

  Free-nil : (m : List (K × V)) → Free [] m
  Free-nil [] = all_nil
  Free-nil (e ∷ m) = all_cons all_nil (Free-nil m)

  fill-append :
      (add : K → V → List (K × V) → List (K × V))
      → Appends add
      → {m : List (K × V)} → Once m
      → (new : List (K × V)) → Free new m
      → fill add m new ≡ new ++ m
  fill-append add a once_nil new f = sym (append-nil new)
  fill-append add a (once_cons {k} {v} {m} h o) new (all_cons f g) = rw (a.appends k v new f) (
      fill-append add a o (new ++ (k, v) ∷ []) (Free-snoc v new h g)
      ∙ append_assoc new ((k, v) ∷ []) m)

put-Appends : Appends str_eq put
unfolding put
put-Appends = record { appends = λ k v new f. go k v f }
  where
    go :
        (k : Str) (v : InterfaceConfig) {new : List (Str × InterfaceConfig)}
        → All (λ (e : Str × InterfaceConfig). str_eq e.0 k ≡ false) new
        → put k v new ≡ new ++ (k, v) ∷ []
    go k v all_nil = refl
    go k v (all_cons h f) = rw (h, go k v f) refl

abbrev id_of_area : ℕ → ℕ → Bool
id_of_area a b = a == b

put_area-Appends : Appends id_of_area put_area
unfolding put_area
put_area-Appends = record { appends = λ k v new f. go k v f }
  where
    go :
        (k : ℕ) (v : AreaConfig) {new : List (ℕ × AreaConfig)}
        → All (λ (e : ℕ × AreaConfig). (e.0 == k) ≡ false) new
        → put_area k v new ≡ new ++ (k, v) ∷ []
    go k v all_nil = refl
    go k v (all_cons h f) = rw (h, go k v f) refl

put_config-Appends : Appends id_eq put_config
unfolding put_config
put_config-Appends = record { appends = λ k v new f. go k v f }
  where
    go :
        (k : ServiceId) (v : ProtocolConfig) {new : List (ServiceId × ProtocolConfig)}
        → All (λ (e : ServiceId × ProtocolConfig). id_eq e.0 k ≡ false) new
        → put_config k v new ≡ new ++ (k, v) ∷ []
    go k v all_nil = refl
    go k v (all_cons h f) = rw (h, go k v f) refl

put_all-fill : (m new : List (Str × InterfaceConfig)) → put_all m new ≡ fill str_eq put m new
unfolding put_all
put_all-fill [] new = refl
put_all-fill ((k, v) ∷ m) new = put_all-fill m (put k v new)

-- The maps of a configuration have each key once.
pub data KeyedArea : ℕ × AreaConfig → Type 0 where
  keyed_area : {k : ℕ} {a : AreaConfig} → Once str_eq a.interfaces → KeyedArea (k, a)

pub record KeyedOspf (c : OspfConfig) : Type 0 where
  pub areas_once : Once id_of_area c.areas
  pub interfaces_once : All KeyedArea c.areas

pub data KeyedConfig : ServiceId × ProtocolConfig → Type 0 where
  keyed_ospf : {s : ServiceId} {c : OspfConfig} → KeyedOspf c → KeyedConfig (s, ospf c)

copy_area-eq : (a : AreaConfig) → Once str_eq a.interfaces → copy_area a ≡ a
unfolding copy_area
copy_area-eq a o =
    let e : put_all a.interfaces [] ≡ a.interfaces =
      put_all-fill a.interfaces []
      ∙ fill-append str_eq put put-Appends o [] (Free-nil str_eq a.interfaces) in
    λ i. record a { interfaces = e i }

copy_areas-fill :
    {m : List (ℕ × AreaConfig)}
    → All KeyedArea m
    → (new : List (ℕ × AreaConfig)) → copy_areas m new ≡ fill id_of_area put_area m new
unfolding copy_areas
copy_areas-fill all_nil new = refl
copy_areas-fill (all_cons (keyed_area {k} {a} o) w) new =
    rw (copy_area-eq a o) (copy_areas-fill w (put_area k a new))

copy-eq : (c : OspfConfig) → KeyedOspf c → copy c ≡ c
unfolding copy
copy-eq c k =
    let e : copy_areas c.areas [] ≡ c.areas =
      copy_areas-fill k.interfaces_once []
      ∙ fill-append id_of_area put_area put_area-Appends k.areas_once []
          (Free-nil id_of_area c.areas) in
    λ i. record c { areas = e i }

copy_configs-fill :
    {m : List (ServiceId × ProtocolConfig)}
    → All KeyedConfig m
    → (new : List (ServiceId × ProtocolConfig)) → copy_configs m new ≡ fill id_eq put_config m new
unfolding copy_configs
copy_configs-fill all_nil new = refl
copy_configs-fill (all_cons (keyed_ospf {s} {c} k) w) new =
    rw (copy-eq c k) (copy_configs-fill w (put_config s (ospf c) new))

-- The copy of a configuration whose maps have each key once, as every map does, is equal to it: no
-- service, area, interface or number is lost.
pub copy_config-eq :
    (c : Config)
    → Once id_eq c.protocol_configs
    → All KeyedConfig c.protocol_configs
    → copy_config c ≡ c
copy_config-eq c o w =
    let e : copy_configs c.protocol_configs [] ≡ c.protocol_configs =
      copy_configs-fill w []
      ∙ fill-append id_eq put_config put_config-Appends o [] (Free-nil id_eq c.protocol_configs) in
    λ i. record { protocol_configs = e i }
