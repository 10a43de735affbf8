-- ===== src/Ospf/Instance/Keys.antt =====
-- ospf/ospf.go, the ids of the interfaces, and what adding one does.
use chatter.Base.{
  Bool, true, false, ◌&&◌, ◌||◌, List, [], ◌∷◌, ◌++◌, Option, none, some, Str, str_eq, str_eq_iff,
  All, all_nil, all_cons, All-append, ◌≡◌, refl, sym, ap, ◌∙◌, ◌↔◌, ◌⊎◌, inl, inr, Bool-cases,
  arith,
}
use chatter.Config.Ospf.{InterfaceConfig}
use chatter.Ospf.Instance.{
  Prefix, Action, Netif, InterfaceId, prefix_equals, id_eq, Attached, Interfaces, Instance,
  NetifAndPrefixes, netif_of, has_prefix_in, has_key, has_func, still_there, add_interface, id_of,
  attach,
}

pub id_eq_iff : (a b : InterfaceId) → (id_eq a b ≡ true) ↔ (a ≡ b)
unfolding id_eq prefix_equals
id_eq_iff a b = ground (arith, str_eq_iff a.name b.name)

-- Has the machine the interface's address on the network interface of its name?
abbrev pub has_address : Option NetifAndPrefixes → Prefix → Bool
has_address none p = false
has_address (some nap) p = has_prefix_in nap.1 p

abbrev pub present : List (Str × NetifAndPrefixes) → InterfaceId → Bool
present nets id = has_address (netif_of nets id.name) id.prefix

-- Does the configuration name the network interface?
unfoldable pub configured : List (Str × InterfaceConfig) → Str → Bool
unfolding str_eq
configured [] n = false
configured ((k, c) ∷ m) n = str_eq k n || configured m n

pub data Matching : InterfaceId × Attached → Type 0 where
  matching : {id : InterfaceId} {a : Attached} → a.prefix ≡ id.prefix → Matching (id, a)

-- Each interface has the prefix of its key and a function that cancels it.
pub record Valid (i : Instance) : Type 0 where
  pub prefixes : All Matching i.interfaces
  pub cancellable :
      (x : InterfaceId) → has_key i.interfaces x ≡ true → has_func i.cancel_funcs x ≡ true

pub has_key-append :
    (m n : Interfaces) (x : InterfaceId) → has_key (m ++ n) x ≡ (has_key m x || has_key n x)
unfolding has_key
has_key-append [] n x = refl
has_key-append ((k, a) ∷ m) n x = ground (arith, has_key-append m n x)

pub has_key-here : (k : InterfaceId) (a : Attached) (m : Interfaces) → has_key ((k, a) ∷ m) k ≡ true
unfolding has_key
has_key-here k a m = rw ((id_eq_iff k k).1 refl) refl

pub present-same :
    (nets : List (Str × NetifAndPrefixes)) (k x : InterfaceId)
    → id_eq k x ≡ true
    → present nets k ≡ present nets x
present-same nets k x e = ap (present nets) ((id_eq_iff k x).0 e)

pub still_there-present :
    (a : Attached) (id : InterfaceId) (o : Option NetifAndPrefixes)
    → a.prefix ≡ id.prefix
    → ((still_there a o ≡ none) × (has_address o id.prefix ≡ false))
      ⊎ ((n : Netif) × (still_there a o ≡ some n) × (has_address o id.prefix ≡ true))
still_there-present a id none e = inl (refl, refl)
still_there-present a id (some nap) e = elim (Bool-cases (has_prefix_in nap.1 id.prefix)) [
  | inl y ↦ inr (nap.0, rw (e, y) refl, y)
  | inr n ↦ inl (rw (e, n) refl, n)
]

-- Adding one interface that is not there.
pub add_interface-has_key :
    (c : InterfaceConfig) (id : InterfaceId) (acts : List Action) (i : Instance) (x : InterfaceId)
    → has_key (add_interface c id acts i).interfaces x ≡ (has_key i.interfaces x || id_eq id x)
unfolding has_key
add_interface-has_key c id acts i x =
    has_key-append i.interfaces ((id, attach c id.prefix) ∷ []) x ∙ ground arith

pub add_interface-Valid :
    (c : InterfaceConfig) (id : InterfaceId) (acts : List Action) (i : Instance)
    → Valid i
    → Valid (add_interface c id acts i)
unfolding has_func
add_interface-Valid c id acts i v = record {
  prefixes = All-append v.prefixes (all_cons (matching refl) all_nil);
  cancellable = λ x h. ground (arith, add_interface-has_key c id acts i x, h, v.cancellable x);
}

pub has_key-same :
    (m : Interfaces) (k x : InterfaceId) → id_eq k x ≡ true → has_key m k ≡ has_key m x
has_key-same m k x e = ap (has_key m) ((id_eq_iff k x).0 e)

pub same_id :
    (name : Str) (p : Prefix) (x : InterfaceId)
    → id_eq (id_of name p) x ≡ (str_eq name x.name && prefix_equals p x.prefix)
unfolding id_eq
same_id name p x = refl

pub seen_before :
    (k s p r : Bool) → ((s && p) ≡ true → k ≡ true) → (k || (s && r)) ≡ (k || (s && (p || r)))
seen_before true s p r h = refl
seen_before false true true r h = absurd (grind (arith, h refl))
seen_before false true false r h = refl
seen_before false false p r h = refl

pub seen_now : (k s p r : Bool) → ((k || (s && p)) || (s && r)) ≡ (k || (s && (p || r)))
seen_now true s p r = refl
seen_now false true p r = refl
seen_now false false p r = refl

pub either : (k s c p : Bool) → ((k || (s && p)) || (c && p)) ≡ (k || ((s || c) && p))
either true s c p = refl
either false true true true = refl
either false true true false = refl
either false true false true = refl
either false true false false = refl
either false false c p = refl

pub spread : (k p c : Bool) → ((k && p) || (c && p)) ≡ (p && (k || c))
spread true true c = refl
spread true false true = refl
spread true false false = refl
spread false true true = refl
spread false true false = refl
spread false false true = refl
spread false false false = refl

pub kept_before : (k p : Bool) → (k && p) ≡ true → k ≡ true
kept_before true p h = refl
kept_before false p h = h

-- The network interface of a name is that of each id of the name.
pub absent :
    (nets : List (Str × NetifAndPrefixes)) (name : Str) (x : InterfaceId)
    → netif_of nets name ≡ none
    → (str_eq name x.name && present nets x) ≡ false
absent nets name x e = elim (Bool-cases (str_eq name x.name)) [
  | inr n ↦ rw n refl
  | inl y ↦ rw (y, sym ((str_eq_iff name x.name).0 y), e) refl
]

pub by_name :
    (nets : List (Str × NetifAndPrefixes)) (name : Str) (x : InterfaceId) (nap : NetifAndPrefixes)
    → netif_of nets name ≡ some nap
    → (str_eq name x.name && has_prefix_in nap.1 x.prefix) ≡ (str_eq name x.name && present nets x)
by_name nets name x nap e = elim (Bool-cases (str_eq name x.name)) [
  | inr n ↦ rw n refl
  | inl y ↦ rw (y, sym ((str_eq_iff name x.name).0 y), e) refl
]
