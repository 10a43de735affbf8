-- ===== src/Ospf/Lsa/Recency.antt =====
-- `Compare` against the rules by which one instance is more recent than another.
use chatter.Base.{◌+◌, ◌<◌, ◌≡◌, ◌≢◌, ◌↔◌, ◌⊎◌, inl, inr, sym, ◌∙◌, arith}
use chatter.Base.Int.{ℤ, pos, negsuc, pos_part, neg_part, neg}
use chatter.Ospf.Lsa.{LsaHeader, max_age, max_age_diff, compare}

infix 50 ◌<ℤ◌
abbrev pub ◌<ℤ◌ : ℤ → ℤ → Type 0
a <ℤ b = pos_part a + neg_part b < pos_part b + neg_part a

-- Instance `a` is more recent than `b`: a later sequence number; or, with equal ones, a larger
-- checksum; or, with equal ones too, it alone has the maximal age; or, where neither has,
-- it is younger by more than 900 seconds.
pub data MoreRecent (a b : LsaHeader) : Type 0 where
  later : b.sequence_number <ℤ a.sequence_number → MoreRecent a b
  larger : a.sequence_number ≡ b.sequence_number → b.checksum < a.checksum → MoreRecent a b
  flushed :
      a.sequence_number ≡ b.sequence_number
      → a.checksum ≡ b.checksum
      → a.age ≡ max_age
      → b.age ≢ max_age
      → MoreRecent a b
  younger :
      a.sequence_number ≡ b.sequence_number
      → a.checksum ≡ b.checksum
      → a.age ≢ max_age
      → b.age ≢ max_age
      → a.age + max_age_diff < b.age
      → MoreRecent a b

MoreRecent-compare : (a b : LsaHeader) → MoreRecent a b → compare a b ≡ pos 1
unfolding compare
MoreRecent-compare a b (later s) = ground arith
MoreRecent-compare a b (larger s c) = ground arith
MoreRecent-compare a b (flushed s c x y) = ground arith
MoreRecent-compare a b (younger s c i j d) = ground arith

compare-eq :
    (a b : LsaHeader)
    → a.sequence_number ≡ b.sequence_number
    → a.checksum ≡ b.checksum
    → compare a b ≡ pos 1
    → ((a.age ≡ max_age) × (b.age ≢ max_age))
      ⊎ ((a.age ≢ max_age) × (b.age ≢ max_age) × (a.age + max_age_diff < b.age))
unfolding compare
compare-eq a b s c e = ground arith

compare-cases :
    (a b : LsaHeader)
    → compare a b ≡ pos 1
    → (b.sequence_number <ℤ a.sequence_number)
      ⊎ ((a.sequence_number ≡ b.sequence_number)
          × ((b.checksum < a.checksum) ⊎ (a.checksum ≡ b.checksum)))
unfolding compare
compare-cases a b e = ground arith

compare-MoreRecent : (a b : LsaHeader) → compare a b ≡ pos 1 → MoreRecent a b
compare-MoreRecent a b e = elim (compare-cases a b e) [
  | inl s ↦ later s
  | inr (s, inl c) ↦ larger s c
  | inr (s, inr c) ↦ elim (compare-eq a b s c e) [
    | inl (x, y) ↦ flushed s c x y
    | inr (x, y, d) ↦ younger s c x y d
  ]
]

-- Swapping the instances changes the sign.
pub compare_swap : (a b : LsaHeader) → compare b a ≡ neg (compare a b)
unfolding compare
compare_swap a b = ground arith

neg-pos : (z : ℤ) → neg z ≡ pos 1 → z ≡ negsuc 0
neg-pos (pos n) e = ground arith
neg-pos (negsuc n) e = ground arith

-- `Compare` is 1 exactly if the first instance is more recent by the rules, and -1 exactly if the
-- second one is.
pub compare_iff :
    (a b : LsaHeader)
    → ((compare a b ≡ pos 1) ↔ MoreRecent a b) × ((compare a b ≡ negsuc 0) ↔ MoreRecent b a)
compare_iff a b = (
  (compare-MoreRecent a b, MoreRecent-compare a b),
  (
    λ e. compare-MoreRecent b a (rw (compare_swap a b, e)),
    λ m. neg-pos _ (sym (compare_swap a b) ∙ MoreRecent-compare b a m),
  ),
)
