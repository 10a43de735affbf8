-- ===== src/Commands/Matching/Sound.antt =====
-- Every match that `matchTokens` returns is a path that takes the tokens.
use chatter.Base.{
  ℕ, zero, suc, true, false, List, [], ◌∷◌, Option, none, some, ◌≡◌, refl, sym, ap, subst, ◌⊎◌, inl,
  inr, Str, At, head, tail, All, all_nil, all_cons, All-append, ◌∙◌, Bool-cases, Option-cases,
  if◌then◌else◌,
}
use chatter.Base.Result.{Result, ok, >>=-eq-ok, ok-injective, ok-ne-err, Result-cases}
use chatter.Commands.Node.{choice, node_type_eq, Failure, Ptr, Node, Heap, load}
use chatter.Commands.Matching.{
  Addr, Value, Match, choice_args, set_args, choice_matches, accept, prepend, next_complete,
  children_matches, follow, match_tokens,
}
use chatter.Commands.Matching.Paths.{
  nodes, inputs, Accepts, accept-Accepts, PathOf, through, last, more, step_choice, step_reject,
  step_last, step_more, step_none, step_fuel, step_fault,
}

module _ (parse_addr : Str → Option Addr) (h : Heap) where
  -- The match `m` is a path from `p` that takes `ts`, records them as its inputs, and is marked
  -- complete exactly if its last node has a handler.
  pub record IsMatch (p : Ptr) (ts : List Str) (m : Match) : Type 0 where
    pub path : PathOf parse_addr h p ts (nodes m) (next_complete parse_addr m)
    pub reads : inputs m ≡ ts

  set_args-IsMatch :
      (cs : List Ptr) {p : Ptr} {ts : List Str} (m : Match) {m' : Match}
      → IsMatch p ts m
      → set_args h cs m ≡ ok m'
      → IsMatch p ts m'
  set_args-IsMatch cs [] g e = cc
  set_args-IsMatch cs {p} {ts} (l ∷ m) g e =
      let (args, a, q) = >>=-eq-ok (choice_args h l cs []) _ e in
      subst (IsMatch p ts) (ok-injective q) (record { path = g.path; reads = g.reads })

  choice_matches-IsMatch :
      (n : Node) {p : Ptr} {ts : List Str} (ms : List Match) {ms' : List Match}
      → All (IsMatch p ts) ms
      → choice_matches h n ms ≡ ok ms'
      → All (IsMatch p ts) ms'
  unfolding choice_matches
  choice_matches-IsMatch n {p} {ts} [] all_nil e =
      subst (All (IsMatch p ts)) (ok-injective e) all_nil
  choice_matches-IsMatch n {p} {ts} (m ∷ ms) (all_cons g gs) e =
      let (m', a, e2) =
        >>=-eq-ok (if n.explicit_choice then set_args h n.children m else ok m) _ e in
      let (ms', b, q) = >>=-eq-ok (choice_matches h n ms) _ e2 in
      subst (All (IsMatch p ts)) (ok-injective q)
        (all_cons (one (Bool-cases n.explicit_choice) a) (choice_matches-IsMatch n ms gs b))
    where
      one :
          (n.explicit_choice ≡ true) ⊎ (n.explicit_choice ≡ false)
          → {m' : Match} → (if n.explicit_choice then set_args h n.children m else ok m) ≡ ok m'
          → IsMatch p ts m'
      one (inl x) a = set_args-IsMatch n.children m g (rw x at a)
      one (inr x) a = subst (IsMatch p ts) (ok-injective (rw x at a)) g

  module _ (p : Ptr) {n : Node} (loaded : load h p ≡ ok n) where
    children_matches-IsMatch :
        (ts : List Str)
        → node_type_eq n.t choice ≡ true
        → (rec : Ptr → Result Failure (List Match))
        → ((c : Ptr) (ms : List Match) → rec c ≡ ok ms → All (IsMatch c ts) ms)
        → (cs : List Ptr) → ((c : Ptr) → At c cs → At c n.children)
        → {ms : List Match} → children_matches parse_addr h n rec cs ≡ ok ms
        → All (IsMatch p ts) ms
    unfolding children_matches
    children_matches-IsMatch ts ch rec sound [] sub e =
        subst (All (IsMatch p ts)) (ok-injective e) all_nil
    children_matches-IsMatch ts ch rec sound (c ∷ cs) sub e =
        let (ms, a, e2) = >>=-eq-ok (rec c) _ e in
        let (ms', b, e3) = >>=-eq-ok (choice_matches h n ms) _ e2 in
        let (rest, d, q) = >>=-eq-ok (children_matches parse_addr h n rec cs) _ e3 in
        subst (All (IsMatch p ts)) (ok-injective q) (
          All-append (lift (choice_matches-IsMatch n ms (sound c ms a) b))
            (children_matches-IsMatch ts ch rec sound cs (λ x i. sub x (tail i)) d))
      where
        lift : {ms : List Match} → All (IsMatch c ts) ms → All (IsMatch p ts) ms
        lift all_nil = all_nil
        lift (all_cons g gs) =
            all_cons (record { path = through loaded ch (sub c head) g.path; reads = g.reads })
              (lift gs)

    prepend-IsMatch :
        (t t2 : Str) (ts : List Str) (args : List Value) {c : Ptr}
        → Accepts parse_addr n t
        → n.children ≡ c ∷ []
        → {ms : List Match} → All (IsMatch c (t2 ∷ ts)) ms
        → All (IsMatch p (t ∷ t2 ∷ ts)) (prepend parse_addr p t args ms)
    prepend-IsMatch t t2 ts args a o all_nil = all_nil
    prepend-IsMatch t t2 ts args a o (all_cons g gs) =
        all_cons (record { path = more loaded a o g.path; reads = ap (◌∷◌ t) g.reads })
          (prepend-IsMatch t t2 ts args a o gs)

    follow-IsMatch :
        (t t2 : Str) (ts : List Str) (args : List Value)
        → Accepts parse_addr n t
        → (rec : Ptr → Result Failure (List Match))
        → ((c : Ptr) (ms : List Match) → rec c ≡ ok ms → All (IsMatch c (t2 ∷ ts)) ms)
        → (cs : List Ptr) → n.children ≡ cs
        → {ms : List Match} → follow parse_addr p t args rec cs ≡ ok ms
        → All (IsMatch p (t ∷ t2 ∷ ts)) ms
    unfolding follow
    follow-IsMatch t t2 ts args a rec sound [] o e =
        subst (All (IsMatch p (t ∷ t2 ∷ ts))) (ok-injective e) all_nil
    follow-IsMatch t t2 ts args a rec sound (c ∷ []) o e =
        let (ms, b, q) = >>=-eq-ok (rec c) _ e in
        subst (All (IsMatch p (t ∷ t2 ∷ ts))) (ok-injective q)
          (prepend-IsMatch t t2 ts args a o (sound c ms b))
    follow-IsMatch t t2 ts args a rec sound (c ∷ c2 ∷ cs) o e = cc

    -- The part of `matchTokens` behind the load, on both kinds of nodes.
    node-IsMatch :
        (f : ℕ)
        → ((c : Ptr) (ts : List Str) (ms : List Match)
            → match_tokens parse_addr f h c ts ≡ ok ms
            → All (IsMatch c ts) ms)
        → (ts : List Str) {ms : List Match}
        → (node_type_eq n.t choice ≡ true) ⊎ (node_type_eq n.t choice ≡ false)
        → match_tokens parse_addr (suc f) h p ts ≡ ok ms
        → All (IsMatch p ts) ms
    node-IsMatch f ih ts (inl ch) e =
        children_matches-IsMatch ts ch _ (λ c ms. ih c ts ms) n.children (λ c i. i)
          (sym (step_choice parse_addr f h p loaded ts ch) ∙ e)
    node-IsMatch f ih [] (inr nc) e =
        absurd (ok-ne-err (sym e ∙ step_none parse_addr f h p loaded nc))
    node-IsMatch f ih (t ∷ ts) (inr nc) e = token (Option-cases (accept parse_addr n t)) ts e
      where
        token :
            (accept parse_addr n t ≡ none)
              ⊎ ((args : List Value) × (accept parse_addr n t ≡ some args))
            → (ts : List Str) {ms : List Match}
            → match_tokens parse_addr (suc f) h p (t ∷ ts) ≡ ok ms
            → All (IsMatch p (t ∷ ts)) ms
        token (inl a) ts e =
            subst (All (IsMatch p (t ∷ ts)))
              (ok-injective (sym (step_reject parse_addr f h p loaded t ts nc a) ∙ e)) all_nil
        token (inr (args, a)) [] e =
            subst (All (IsMatch p (t ∷ [])))
              (ok-injective (sym (step_last parse_addr f h p loaded t nc a) ∙ e))
              (all_cons
                (record { path = last loaded (accept-Accepts parse_addr n t a); reads = refl })
                all_nil)
        token (inr (args, a)) (t2 ∷ ts) e =
            follow-IsMatch t t2 ts args (accept-Accepts parse_addr n t a) _
              (λ c ms. ih c (t2 ∷ ts) ms) n.children refl
              (sym (step_more parse_addr f h p loaded t t2 ts nc a) ∙ e)

  -- Each match that the search returns is a path from the node that takes all the tokens, in order.
  pub match_tokens-IsMatch :
      (f : ℕ) (p : Ptr) (ts : List Str) (ms : List Match)
      → match_tokens parse_addr f h p ts ≡ ok ms
      → All (IsMatch p ts) ms
  match_tokens-IsMatch zero p ts ms e = absurd (ok-ne-err (sym e ∙ step_fuel parse_addr h p ts))
  match_tokens-IsMatch (suc f) p ts ms e = elim (Result-cases (load h p)) [
    | inl (n, l) ↦
        node-IsMatch p l f (match_tokens-IsMatch f) ts (Bool-cases (node_type_eq n.t choice)) e
    | inr (x, l) ↦ absurd (ok-ne-err (sym e ∙ step_fault parse_addr f h p ts l))
  ]
