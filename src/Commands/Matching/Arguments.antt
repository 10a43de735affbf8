-- ===== src/Commands/Matching/Arguments.antt =====
-- chatterc/commands/commands.go, `matchTokens`: making the arguments of a choice never panics.
use chatter.Base.{
  true, false, List, [], ◌∷◌, ◌++◌, ◌==◌, All, all_nil, all_cons, ◌≡◌, refl, sym, ap, ◌∙◌, inl, inr,
  ◌⊎◌, Bool-cases, ==_iff, arith,
}
use chatter.Base.Result.{ok, ok-injective}
use chatter.Commands.Node.{
  NodeType, literal, param_string, param_ipv4, param_ipv6, choice, Ptr, Node, Heap, load,
  node_type_eq, param_type,
}
use chatter.Commands.Matching.{
  Value, bool_value, put_of_type, Link, Match, choice_args, choice_matches, contains_type?,
  zero_value, is_literal,
}

-- A node that is no choice.
pub data Atom (h : Heap) (p : Ptr) : Type 0 where
  atom : {n : Node} → load h p ≡ ok n → node_type_eq n.t choice ≡ false → Atom h p

-- A match whose first node, unless it is a literal, gives an argument.
pub data Supplied (h : Heap) : Match → Type 0 where
  supplied :
      {l : Link} {m : Match} {n : Node}
      → load h l.node ≡ ok n
      → (is_literal n.t ≡ true) ⊎ ((v : Value) × (vs : List Value) × (l.args ≡ v ∷ vs))
      → Supplied h (l ∷ m)

zero_value-Atom :
    (t : NodeType)
    → node_type_eq t choice ≡ false
    → is_literal t ≡ false
    → (v : Value) × (zero_value (param_type t true) ≡ ok v)
unfolding zero_value param_type
zero_value-Atom literal e f = absurd (grind (arith, f))
zero_value-Atom param_string e f = (_, refl)
zero_value-Atom param_ipv4 e f = (_, refl)
zero_value-Atom param_ipv6 e f = (_, refl)
zero_value-Atom choice e f = absurd (grind (arith, e))

own_arg :
    (h : Heap) (l : Link) {p : Ptr} {c n : Node}
    → load h p ≡ ok c
    → load h l.node ≡ ok n
    → p ≡ l.node
    → is_literal c.t ≡ false
    → (is_literal n.t ≡ true) ⊎ ((v : Value) × (vs : List Value) × (l.args ≡ v ∷ vs))
    → (v : Value) × (vs : List Value) × (l.args ≡ v ∷ vs)
own_arg h l {c} {n} d e same z (inl y) =
    let k : c ≡ n = ok-injective (sym d ∙ ap (load h) same ∙ e) in
    let w : is_literal c.t ≡ true = rw k y in absurd (grind (arith, w, z))
own_arg h l d e same z (inr g) = g

choice_args-ok :
    (h : Heap) (l : Link) {n : Node} (cs : List Ptr) (args : List Value)
    → load h l.node ≡ ok n
    → (is_literal n.t ≡ true) ⊎ ((v : Value) × (vs : List Value) × (l.args ≡ v ∷ vs))
    → All (Atom h) cs
    → (args' : List Value) × (choice_args h l cs args ≡ ok args')
unfolding choice_args
choice_args-ok h l [] args e g a = (args, refl)
choice_args-ok h l {n} (p ∷ cs) args e g (all_cons (atom {n = c} d x) a) =
    elim (Bool-cases (is_literal c.t)) [
      | inl y ↦ elim (Bool-cases (p == l.node)) [
        | inl same ↦
            let (r, q) = choice_args-ok h l cs (args ++ bool_value true ∷ []) e g a in
            (r, rw (d, y, same, choice_args) q)
        | inr other ↦
            let (r, q) = choice_args-ok h l cs (args ++ bool_value false ∷ []) e g a in
            (r, rw (d, y, other, choice_args) q)
      ]
      | inr z ↦ elim (Bool-cases (p == l.node)) [
        | inl same ↦
            let (v, vs, k) = own_arg h l d e ((==_iff p l.node).0 same) z g in
            let (r, q) = choice_args-ok h l cs (put_of_type args v) e g a in
            (r, rw (d, z, same, k, choice_args) q)
        | inr other ↦
            let (v, zv) = zero_value-Atom c.t x z in
            elim (Bool-cases (contains_type? args (param_type c.t true))) [
              | inl has ↦
                  let (r, q) = choice_args-ok h l cs args e g a in
                  (r, rw (d, z, other, has, choice_args) q)
              | inr lacks ↦
                  let (r, q) = choice_args-ok h l cs (args ++ v ∷ []) e g a in
                  (r, rw (d, z, other, lacks, zv, choice_args) q)
            ]
      ]
    ]

pub choice_matches-ok :
    (h : Heap) (n : Node) {ms : List Match}
    → All (Atom h) n.children
    → All (Supplied h) ms
    → (out : List Match) × (choice_matches h n ms ≡ ok out)
unfolding choice_matches
choice_matches-ok h n a all_nil = ([], refl)
choice_matches-ok h n a (all_cons (supplied {l} {m} e g) s) =
    let (out, q) = choice_matches-ok h n a s in
    elim (Bool-cases n.explicit_choice) [
      | inl y ↦
          let (args, k) = choice_args-ok h l n.children [] e g a in
          ((record l { args = args } ∷ m) ∷ out, rw (y, k, q) refl)
      | inr z ↦ ((l ∷ m) ∷ out, rw (z, q) refl)
    ]
