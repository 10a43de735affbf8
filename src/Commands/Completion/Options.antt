-- ===== src/Commands/Completion/Options.antt =====
-- chatterc/commands/commands.go: the options that the graph offers differ and begin with the field.
use chatter.Base.{
  ℕ, zero, suc, true, false, ◌||◌, List, [], ◌∷◌, ◌++◌, Option, none, some, Str, str_eq, has_prefix,
  All, all_nil, all_cons, All-append, ◌≡◌, refl, sym, ◌∙◌, subst, inl, inr, Bool-cases,
  Option-cases, arith,
}
use chatter.Base.Result.{Result, ok, Result-cases, >>=-eq-ok, ok-injective, ok-ne-err}
use chatter.Commands.Node.{
  Failure, literal, choice, Ptr, Node, Heap, load, node_type_eq, AutocompleteFunc,
}
use chatter.Commands.Matching.{Addr, accept}
use chatter.Commands.Completion.{
  contains, add_options, with_prefix, options_from, last_options, each_options, option_texts,
  last_field,
}

-- No string comes twice.
pub data Distinct : List Str → Type 0 where
  distinct_nil : Distinct []
  distinct_cons : {s : Str} {l : List Str} → contains l s ≡ false → Distinct l → Distinct (s ∷ l)

-- Each string begins with the field.
abbrev pub Begin : Str → List Str → Type 0
Begin field l = All (λ s. has_prefix field s ≡ true) l

pub data Good (field : Str) (l : List Str) : Type 0 where
  good : Distinct l → Begin field l → Good field l

str_eq_sym : (s t : Str) → str_eq s t ≡ str_eq t s
unfolding str_eq
str_eq_sym [] [] = refl
str_eq_sym [] (b ∷ t) = refl
str_eq_sym (a ∷ s) [] = refl
str_eq_sym (a ∷ s) (b ∷ t) = ground (arith, str_eq_sym s t)

contains-append :
    (s x : Str) (l : List Str) → contains (l ++ s ∷ []) x ≡ (contains l x || str_eq s x)
unfolding contains
contains-append s x [] = ground arith
contains-append s x (t ∷ l) = ground (arith, contains-append s x l)

Distinct-append :
    (s : Str) {l : List Str} → contains l s ≡ false → Distinct l → Distinct (l ++ s ∷ [])
unfolding contains
Distinct-append s c distinct_nil = distinct_cons refl distinct_nil
Distinct-append s c (distinct_cons {s = t} {l} d e) =
    let a : str_eq t s || contains l s ≡ false = c in
    let b : str_eq t s ≡ false = ground (arith, a) in
    distinct_cons (contains-append s t l ∙ rw (d, str_eq_sym s t ∙ b) refl)
      (Distinct-append s (ground (arith, a)) e)

-- Adding options to options keeps them distinct, whatever the new ones are.
add_options-Good :
    (field : Str) {l : List Str} (os : List Str)
    → Good field l
    → Begin field os
    → Good field (add_options l os)
unfolding add_options
add_options-Good field [] g all_nil = g
add_options-Good field {l} (o ∷ os) (good d b) (all_cons p ps) = elim (Bool-cases (contains l o)) [
  | inl y ↦ rw y (add_options-Good field os (good d b) ps)
  | inr n ↦ rw n (
      add_options-Good field os (good (Distinct-append o n d) (All-append b (all_cons p all_nil)))
        ps)
]

with_prefix-Begin : (field : Str) (os : List Str) → Begin field (with_prefix field os)
unfolding with_prefix
with_prefix-Begin field [] = all_nil
with_prefix-Begin field (o ∷ os) = elim (Bool-cases (has_prefix field o)) [
  | inl y ↦ rw y (all_cons y (with_prefix-Begin field os))
  | inr n ↦ rw n (with_prefix-Begin field os)
]

options_from-Begin :
    (call : Option AutocompleteFunc) (field : Str) {l : List Str}
    → options_from call field ≡ ok l
    → Begin field l
unfolding options_from
options_from-Begin none field e = subst (Begin field) (ok-injective e) all_nil
options_from-Begin (some call) field e =
    let (os, a, q) = >>=-eq-ok call _ e in
    subst (Begin field) (ok-injective q) (with_prefix-Begin field os)

last_options-Good :
    (n : Node) (field : Str) {l : List Str} → last_options n field ≡ ok l → Good field l
unfolding last_options
last_options-Good n field e = elim (Bool-cases (node_type_eq n.t literal)) [
  | inl y ↦ elim (Bool-cases (has_prefix field n.value)) [
    | inl h ↦
        subst (Good field) (ok-injective (rw (y, h) at e))
          (good (distinct_cons refl distinct_nil) (all_cons h all_nil))
    | inr h ↦ subst (Good field) (ok-injective (rw (y, h) at e)) (good distinct_nil all_nil)
  ]
  | inr z ↦
      let (os, a, q) = >>=-eq-ok (options_from n.autocomplete_func field) _ (rw z at e) in
      subst (Good field) (ok-injective q)
        (add_options-Good field os (good distinct_nil all_nil) (options_from-Begin _ field a))
]

each_options-Good :
    (field : Str) (rec : Ptr → Result Failure (List Str)) (cs : List Ptr) {l out : List Str}
    → ((c : Ptr) (os : List Str) → rec c ≡ ok os → Good field os)
    → Good field l
    → each_options rec cs l ≡ ok out
    → Good field out
unfolding each_options
each_options-Good field rec [] g k e = subst (Good field) (ok-injective e) k
each_options-Good field rec (c ∷ cs) g k e =
    let (os, a, q) = >>=-eq-ok (rec c) _ e in
    each_options-Good field rec cs g (elim (g c os a) [ good d b ↦ add_options-Good field os k b ])
      q

module _ (parse_addr : Str → Option Addr) (h : Heap) where
  -- The three cases of a node that is no choice: no field, the last field, and a field before it.
  fields-Good :
      (n : Node) (fuel : ℕ) (p : Ptr)
      → load h p ≡ ok n
      → node_type_eq n.t choice ≡ false
      → ((c : Ptr) (fs : List Str) (field : Str) (l : List Str)
          → last_field fs ≡ ok field
          → option_texts parse_addr fuel h c fs ≡ ok l
          → Good field l)
      → (fs : List Str) {field : Str} {l : List Str} → last_field fs ≡ ok field
      → option_texts parse_addr (suc fuel) h p fs ≡ ok l
      → Good field l
  unfolding option_texts
  fields-Good n fuel p a z g [] f e = absurd (ok-ne-err (sym f))
  fields-Good n fuel p a z g (t ∷ []) {l} f e =
      subst (λ field. Good field l) (ok-injective f)
        (last_options-Good n t (rw (a, z, option_texts) at e))
  fields-Good n fuel p a z g (t ∷ t2 ∷ ts) {field} f e =
      elim (Option-cases (accept parse_addr n t)) [
        | inl r ↦
            subst (Good field) (ok-injective (rw (a, z, r, option_texts) at e))
              (good distinct_nil all_nil)
        | inr (args, r) ↦
            each_options-Good field (λ c. option_texts parse_addr fuel h c (t2 ∷ ts)) n.children
              (λ c os. g c (t2 ∷ ts) field os f) (good distinct_nil all_nil)
              (rw (a, z, r, option_texts) at e)
      ]

  pub option_texts-Good :
      (fuel : ℕ) (p : Ptr) (fs : List Str) {field : Str} {l : List Str}
      → last_field fs ≡ ok field
      → option_texts parse_addr fuel h p fs ≡ ok l
      → Good field l
  unfolding option_texts
  option_texts-Good zero p fs f e = absurd (grind (arith, e))
  option_texts-Good (suc fuel) p fs {field} {l} f e = elim (Result-cases (load h p)) [
    | inr (x, a) ↦ absurd (ok-ne-err (sym (rw (a, option_texts) at e)))
    | inl (n, a) ↦ elim (Bool-cases (node_type_eq n.t choice)) [
      | inl y ↦
          each_options-Good field (λ c. option_texts parse_addr fuel h c fs) n.children
            (λ c os. option_texts-Good fuel c fs f) (good distinct_nil all_nil)
            (rw (a, y, option_texts) at e)
      | inr z ↦ fields-Good n fuel p a z (λ c ts field os. option_texts-Good fuel c ts) fs f e
    ]
  ]
