-- ===== src/Ospf/Instance/Update.antt =====
-- ospf/ospf.go, `updateInterfaces`: which interfaces there are behind it.
use chatter.Base.{
  Bool, true, false, ◌&&◌, ◌||◌, List, [], ◌∷◌, ◌++◌, some, Str, str_eq, All, all_nil, all_cons,
  ◌≡◌, refl, sym, ap, ◌∙◌, inl, inr, Bool-cases, Option-cases, arith,
}
use chatter.Base.Result.{ok}
use chatter.Config.Ospf.{InterfaceConfig}
use chatter.Config.Ospf.Methods.{interface_configs}
use chatter.Ospf.Interface.{Event, interface_down}
use chatter.Ospf.Instance.{
  Prefix, send_wait, stop, Netif, InterfaceId, prefix_equals, Interfaces, Action, Instance,
  NetifAndPrefixes, name_netifs, netif_of, has_prefix_in, has_key, has_func, changes, sends, sent,
  removed, first_events, add_one, update_existing, add_interface, id_of, add_prefixes, add_netif,
  add_new, update_interfaces,
}
use chatter.Ospf.Instance.Keys.{
  present, configured, Matching, Valid, has_key-here, present-same, still_there-present,
  add_interface-has_key, add_interface-Valid, has_key-same, same_id, seen_before, seen_now, either,
  spread, kept_before, absent, by_name, matching,
}

module _ (takes : InterfaceId → Bool) (takes_all : (id : InterfaceId) → takes id ≡ true) where
  sent-all : (id : InterfaceId) (es : List Event) → sent takes id es ≡ ok (sends id es)
  unfolding sent
  sent-all id [] = refl
  sent-all id (e ∷ es) = rw (takes_all id) refl

  removed-func :
      (funcs : List InterfaceId) (id : InterfaceId)
      → has_func funcs id ≡ true
      → removed takes funcs id ≡ ok (send_wait id interface_down ∷ stop id ∷ [])
  removed-func funcs id f = rw (takes_all id, f) refl

module _ (takes : InterfaceId → Bool) (takes_all : (id : InterfaceId) → takes id ≡ true)
    (late : InterfaceId → Bool) (nets : List (Str × NetifAndPrefixes))
    (funcs : List InterfaceId) where
  -- The interfaces that stay are those whose address is still there.
  update_existing-present :
      (m : Interfaces)
      → All Matching m
      → ((x : InterfaceId) → has_key m x ≡ true → has_func funcs x ≡ true)
      → (kept : Interfaces) × (acts : List Action) × (update_existing takes late nets funcs m
          ≡ ok (kept, acts))
        × All Matching kept
        × ((x : InterfaceId) → has_key kept x ≡ (has_key m x && present nets x))
  unfolding update_existing has_key
  update_existing-present [] all_nil f = ([], [], refl, all_nil, λ x. refl)
  update_existing-present ((id, a) ∷ m) (all_cons (matching e) w) f =
      let (kept, acts, r, v, h) = update_existing-present m w (λ x g. f x (ground (arith, g))) in
      elim (still_there-present a id (netif_of nets id.name) e) [
        | inl gone ↦
            let func : has_func funcs id ≡ true = f id (has_key-here id a m) in
            (
              kept,
              send_wait id interface_down ∷ stop id ∷ acts,
              rw (gone.0, removed-func takes takes_all funcs id func, r, update_existing) refl,
              v,
              λ x. ground (arith, h x, gone.1, present-same nets id x),
            )
        | inr there ↦ (
          (id, a) ∷ kept,
          sends id (changes (late id) there.0 a.interface) ++ acts,
          rw
              (
                there.1,
                sent-all takes takes_all id (changes (late id) there.0 a.interface),
                r,
                update_existing,
              )
              refl,
          all_cons (matching e) v,
          λ x. ground (arith, h x, there.2, present-same nets id x),
        )
      ]

-- What a loop that adds interfaces leaves: a valid instance of one configuration that has what it had
-- and what the test says.
record Added (test : InterfaceId → Bool) (i j : Instance) : Type 0 where
  valid : Valid j
  has_both : (x : InterfaceId) → has_key j.interfaces x ≡ (has_key i.interfaces x || test x)

Added-none :
    {test : InterfaceId → Bool} (i : Instance)
    → Valid i
    → ((x : InterfaceId) → test x ≡ false)
    → Added test i i
Added-none i v f = record { valid = v; has_both = λ x. rw (f x) (ground arith) }

module _ (takes : InterfaceId → Bool) (takes_all : (id : InterfaceId) → takes id ≡ true) where
  add_one-new :
      (c : InterfaceConfig) (id : InterfaceId) (n : Netif) (i : Instance)
      → has_key i.interfaces id ≡ false
      → add_one takes c id n i ≡ ok (add_interface c id (sends id (first_events n)) i)
  unfolding add_one
  add_one-new c id n i e = rw (e, sent-all takes takes_all id (first_events n)) refl

  add_one-there :
      (c : InterfaceConfig) (id : InterfaceId) (n : Netif) (i : Instance)
      → has_key i.interfaces id ≡ true
      → add_one takes c id n i ≡ ok i
  unfolding add_one
  add_one-there c id n i e = rw e refl

  add_prefixes-Added :
      (name : Str) (c : InterfaceConfig) (n : Netif) (ps : List Prefix) (i : Instance)
      → Valid i
      → (j : Instance) × (add_prefixes takes name c n ps i ≡ ok j)
        × Added (λ x. str_eq name x.name && has_prefix_in ps x.prefix) i j
  unfolding add_prefixes has_prefix_in
  add_prefixes-Added name c n [] i v = (i, refl, record { valid = v; has_both = λ x. ground arith })
  add_prefixes-Added name c n (p ∷ ps) i v =
      elim (Bool-cases (has_key i.interfaces (id_of name p))) [
        | inl y ↦
            let (j, e, r) = add_prefixes-Added name c n ps i v in
            (
              j,
              rw (add_one-there c (id_of name p) n i y, add_prefixes) e,
              record {
                valid = r.valid;
                has_both = λ x.
                    r.has_both x
                    ∙ seen_before (has_key i.interfaces x) (str_eq name x.name)
                        (prefix_equals p x.prefix) (has_prefix_in ps x.prefix)
                        (λ h.
                          sym (has_key-same i.interfaces (id_of name p) x (same_id name p x ∙ h))
                          ∙ y);
              },
            )
        | inr no_key ↦
            let acts = sends (id_of name p) (first_events n) in
            let (j, e, r) =
              add_prefixes-Added name c n ps (add_interface c (id_of name p) acts i)
                (add_interface-Valid c (id_of name p) acts i v) in
            (
              j,
              rw (add_one-new c (id_of name p) n i no_key, add_prefixes) e,
              record {
                valid = r.valid;
                has_both = λ x.
                    r.has_both x
                    ∙ rw (add_interface-has_key c (id_of name p) acts i x, same_id name p x)
                        (seen_now (has_key i.interfaces x) (str_eq name x.name)
                          (prefix_equals p x.prefix) (has_prefix_in ps x.prefix));
              },
            )
      ]

  add_netif-Added :
      (nets : List (Str × NetifAndPrefixes)) (name : Str) (c : InterfaceConfig) (i : Instance)
      → Valid i
      → (j : Instance) × (add_netif takes name c (netif_of nets name) i ≡ ok j)
        × Added (λ x. str_eq name x.name && present nets x) i j
  add_netif-Added nets name c i v = elim (Option-cases (netif_of nets name)) [
    | inl e ↦ (i, rw e refl, Added-none i v (λ x. absent nets name x e))
    | inr (nap, e) ↦
        let (j, d, r) = add_prefixes-Added name c nap.0 nap.1 i v in
        (
          j,
          rw e d,
          record {
            valid = r.valid;
            has_both = λ x.
                r.has_both x
                ∙ ap (λ (b : Bool). has_key i.interfaces x || b) (by_name nets name x nap e);
          },
        )
  ]

  add_new-Added :
      (nets : List (Str × NetifAndPrefixes)) (m : List (Str × InterfaceConfig)) (i : Instance)
      → Valid i
      → (j : Instance) × (add_new takes nets m i ≡ ok j)
        × Added (λ x. configured m x.name && present nets x) i j
  unfolding add_new configured
  add_new-Added nets [] i v = (i, refl, Added-none i v (λ x. refl))
  add_new-Added nets ((name, c) ∷ m) i v =
      let (i', d, a) = add_netif-Added nets name c i v in
      let (j, e, r) = add_new-Added nets m i' a.valid in
      (
        j,
        rw (d, add_new) e,
        record {
          valid = r.valid;
          has_both = λ x.
              r.has_both x
              ∙ rw (a.has_both x) (
                  either (has_key i.interfaces x) (str_eq name x.name) (configured m x.name)
                    (present nets x));
        },
      )

-- What updateInterfaces promises, with the network interfaces of the machine by their names: an
-- interface is there exactly if its address is on the machine and it was there or the configuration
-- names its network interface.
pub record Refines (nets : List (Str × NetifAndPrefixes)) (i j : Instance) : Type 0 where
  pub valid : Valid j
  pub exactly :
      (x : InterfaceId)
      → has_key j.interfaces x ≡ (
          present nets x
          && (has_key i.interfaces x || configured (interface_configs i.config) x.name))

-- From a valid instance, where the operating system reports the network interfaces and their addresses
-- and the loop of each interface receives the events that it is sent, and apart from the reads of the
-- map by the loops that it starts, updateInterfaces returns: no function to cancel an interface is
-- missing. The instance is valid again, and it has exactly the interfaces whose address is on the machine and that were there before
-- or are configured.
pub update_interfaces-Refines :
    (takes : InterfaceId → Bool)
    → ((id : InterfaceId) → takes id ≡ true)
    → (late : InterfaceId → Bool) (ns : List Netif) (nets : List (Str × NetifAndPrefixes))
      (i : Instance)
    → name_netifs ns [] ≡ ok nets
    → Valid i
    → (j : Instance) × (update_interfaces takes late (some ns) i ≡ ok j) × Refines nets i j
unfolding update_interfaces
update_interfaces-Refines takes takes_all late ns nets i e v =
    let (kept, acts, r, w, h) =
      update_existing-present takes takes_all late nets i.cancel_funcs i.interfaces v.prefixes
        v.cancellable in
    let i' : Instance = record i { interfaces = kept; actions = i.actions ++ acts } in
    let v' : Valid i' = record {
      prefixes = w;
      cancellable = λ x g.
          v.cancellable x (kept_before (has_key i.interfaces x) (present nets x) (rw (h x) at g));
    } in
    let (j, d, a) = add_new-Added takes takes_all nets (interface_configs i.config) i' v' in
    (
      j,
      rw (e, r) d,
      record {
        valid = a.valid;
        exactly = λ x.
            a.has_both x
            ∙ rw (h x) (
                spread (has_key i.interfaces x) (present nets x)
                  (configured (interface_configs i.config) x.name));
      },
    )
