-- ===== src/Commands/Disambiguate/Input.antt =====
-- chatterc/commands/commands.go, `Match`: a line is matched without a panic.
use chatter.Base.{
  ℕ, Bool, List, [], ◌∷◌, Option, Str, length, All, all_nil, all_cons, At, head, tail, ◌≡◌, refl,
  sym, subst,
}
use chatter.Base.Utf8.{fields}
use chatter.Base.Result.{ok}
use chatter.Commands.Node.{Ptr, Heap, load}
use chatter.Commands.Matching.{Addr, Match}
use chatter.Commands.Matching.Paths.{nodes, PathOf, through, last, more}
use chatter.Commands.Matching.Sound.{IsMatch}
use chatter.Commands.Matching.Total.{Graph, match_tokens-returns}
use chatter.Commands.Disambiguate.{match_fields, match_input}
use chatter.Commands.Disambiguate.Returns.{Long, long_end, long_link, disambiguate-returns}

same_head : {p q : Ptr} {ps qs : List Ptr} → p ∷ ps ≡ q ∷ qs → p ≡ q
same_head e = cc

same_tail : {p q : Ptr} {ps qs : List Ptr} → p ∷ ps ≡ q ∷ qs → ps ≡ qs
same_tail e = cc

All-At : {A : Type 0} {P : A → Type 0} {a : A} {l : List A} → All P l → At a l → P a
All-At all_nil i = elim i [ ]
All-At (all_cons p ps) head = p
All-At (all_cons p ps) (tail i) = All-At ps i

All-map : {A : Type 0} {P Q : A → Type 0} {l : List A} → ((a : A) → P a → Q a) → All P l → All Q l
All-map f all_nil = all_nil
All-map f (all_cons {x} p ps) = all_cons (f x p) (All-map f ps)

module _ (parse_addr : Str → Option Addr) (h : Heap) where
  PathOf-Long :
      {p : Ptr} {ts : List Str} {ps : List Ptr} {done : Bool} (m : Match)
      → PathOf parse_addr h p ts ps done
      → nodes m ≡ ps
      → Long h (length ts) m
  PathOf-Long m (through e x i w) k = PathOf-Long m w k
  PathOf-Long [] (last e a) k = absurd cc
  PathOf-Long (l ∷ m) (last {n} e a) k =
      long_link (subst (λ q. load h q ≡ ok n) (sym (same_head k)) e) long_end
  PathOf-Long [] (more e a o w) k = absurd cc
  PathOf-Long (l ∷ m) (more {n} e a o w) k =
      long_link (subst (λ q. load h q ≡ ok n) (sym (same_head k)) e) (PathOf-Long m w (same_tail k))

  match_fields-returns :
      (k : ℕ) (p : Ptr) (ts : List Str)
      → Graph h k p
      → (out : List Match) × (match_fields parse_addr k h p ts ≡ ok out)
        × All (IsMatch parse_addr h p ts) out
  unfolding match_fields
  match_fields-returns k p [] g = ([], refl, all_nil)
  match_fields-returns k p (t ∷ ts) g =
      let (ms, q, w) = match_tokens-returns parse_addr h k p t ts g in
      let (out, r, s) =
        disambiguate-returns h (t ∷ ts) ms (All-map (λ m i. PathOf-Long m i.path refl) w) in
      (out, rw (q, r) refl, All-map (λ m i. All-At w i) s)

  -- On a graph of bounded height whose nodes have at most one child if they are no choice, and no
  -- choice as an option if they are one, Match returns on every line, without a panic and with the
  -- height as fuel, and each match it returns is a path that takes the fields of the line.
  pub match_input-returns :
      (k : ℕ) (p : Ptr) (input : Str)
      → Graph h k p
      → (out : List Match) × (match_input parse_addr k h p input ≡ ok out)
        × All (IsMatch parse_addr h p (fields input)) out
  unfolding match_input
  match_input-returns k p input g = match_fields-returns k p (fields input) g
