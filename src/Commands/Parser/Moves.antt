-- ===== src/Commands/Parser/Moves.antt =====
-- chatterc/commands/commands.go, `commandParser`: how far the small readers move.
use chatter.Base.{
  ℕ, ◌+◌, ◌≤◌, Bool, true, false, [], ◌∷◌, none, some, ◌==◌, if◌then◌else◌, Str, strip_prefix,
  length, ◌≡◌, refl, sym, subst, some-injective, some-ne-none, inl, inr, Bool-cases, Option-cases,
  arith,
}
use chatter.Base.Utf8.{decode_rune}
use chatter.Commands.Parser.{Parser, span, skip_whitespace, consume}

-- From one state of the parser to another: no byte is lost, and at least k are read.
pub data Moves (k : ℕ) (p q : Parser) : Type 0 where
  moves : q.pos + length q.rest ≡ p.pos + length p.rest → p.pos + k ≤ q.pos → Moves k p q

pub Moves-trans :
    {j k : ℕ} (i : ℕ) {p q r : Parser} → Moves j p q → Moves k q r → i ≤ j + k → Moves i p r
Moves-trans i (moves a b) (moves c d) h = moves (omega arith) (omega arith)

pub Moves-length : {k : ℕ} {p q : Parser} → Moves k p q → length q.rest + k ≤ length p.rest
Moves-length (moves a b) = omega arith

pub span-Moves :
    (test : ℕ → Bool) (s : Str) (pos : ℕ)
    → Moves 0 (record { rest = s; pos = pos }) (span test s pos).1
unfolding span
span-Moves test [] pos = moves refl (omega arith)
span-Moves test (b ∷ s) pos = elim (Bool-cases (test (decode_rune (b ∷ s)).0)) [
  | inl y ↦ rw y (
      Moves-trans {j = 1} 0 {q = record { rest = s; pos = pos + 1 }}
        (moves (omega arith) (omega arith)) (span-Moves test s (pos + 1)) (omega arith))
  | inr n ↦ rw n (moves refl (omega arith))
]

-- A reader that passes the first rune reads one byte at least.
pub span-Moves_one :
    (test : ℕ → Bool) (s : Str) (pos : ℕ)
    → test (decode_rune s).0 ≡ true
    → test 0xfffd ≡ false
    → Moves 1 (record { rest = s; pos = pos }) (span test s pos).1
unfolding span decode_rune
span-Moves_one test [] pos y n = absurd (grind (arith, y, n))
span-Moves_one test (b ∷ s) pos y n = rw y (
    Moves-trans {j = 1} 1 {q = record { rest = s; pos = pos + 1 }}
      (moves (omega arith) (omega arith)) (span-Moves test s (pos + 1)) (omega arith))

pub skip_whitespace-Moves : (p : Parser) → Moves 0 p (skip_whitespace p)
unfolding skip_whitespace
skip_whitespace-Moves p = span-Moves (λ c. c == b' ') p.rest p.pos

length-strip_prefix :
    (t s : Str) {r : Str} → strip_prefix t s ≡ some r → length s ≡ length t + length r
unfolding strip_prefix
length-strip_prefix [] s e = ground (arith, e)
length-strip_prefix (a ∷ t) [] e = absurd (grind (arith, e))
length-strip_prefix (a ∷ t) (b ∷ s) {r} e =
    let f : (if a == b then strip_prefix t s else none) ≡ some r = e in
    elim (Bool-cases (a == b)) [
      | inl y ↦ let g = length-strip_prefix t s (rw y at f) in omega (arith, g)
      | inr n ↦ absurd (some-ne-none (sym (rw n at f)))
    ]

pub consume-Moves :
    (t : Str) (p : Parser) {q : Parser} → consume t p ≡ some q → Moves (length t) p q
unfolding consume
consume-Moves t p {q} e = elim (Option-cases (strip_prefix t p.rest)) [
  | inl n ↦ absurd (some-ne-none (sym (let g : none ≡ some q = rw (n, consume) at e in g)))
  | inr (r, f) ↦
      let g : some (record { rest = r; pos = p.pos + length t }) ≡ some q = rw (f, consume) at e in
      let h = length-strip_prefix t p.rest f in
      subst (Moves (length t) p) (some-injective g) (moves (omega (arith, h)) (omega arith))
]
