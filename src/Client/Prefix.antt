-- ===== src/Client/Prefix.antt =====
-- chatterc/cli.go, `commonPrefixLen`: how much several strings have in common.
use chatter.Base.{
  ℕ, zero, suc, ◌≤◌, true, List, [], ◌∷◌, Str, if◌then◌else◌, ◌==◌, length, take, has_prefix, All,
  all_nil, all_cons, ◌≡◌, refl, Bool-cases, inl, inr, arith,
}

-- The inner loop: how many bytes of `s` and `first` agree, at most `bound`. The bound is never above the
-- length of `first`, so that `first` does not end before the loop does.
unfoldable pub agree : ℕ → Str → Str → ℕ
agree zero s first = 0
agree (suc bound) [] first = 0
agree (suc bound) (a ∷ s) [] = 0
agree (suc bound) (a ∷ s) (b ∷ first) = if a == b then suc (agree bound s first) else 0

-- `for _, s := range ss[1:]`, with the value of `prefixLen`.
unfoldable pub shrink : ℕ → Str → List Str → ℕ
unfolding agree
shrink n first [] = n
shrink n first (s ∷ ss) = shrink (agree n s first) first ss

-- `commonPrefixLen(ss...)`
unfoldable pub common_prefix_len : List Str → ℕ
unfolding shrink
common_prefix_len [] = 0
common_prefix_len (first ∷ ss) = shrink (length first) first ss

agree-le : (n : ℕ) (s first : Str) → agree n s first ≤ n
unfolding agree
agree-le zero s first = omega arith
agree-le (suc n) [] first = omega arith
agree-le (suc n) (a ∷ s) [] = omega arith
agree-le (suc n) (a ∷ s) (b ∷ first) = ground (arith, agree-le n s first)

agree-prefix : (n : ℕ) (s first : Str) → has_prefix (take (agree n s first) first) s ≡ true
unfolding agree has_prefix
agree-prefix zero s first = refl
agree-prefix (suc n) [] first = refl
agree-prefix (suc n) (a ∷ s) [] = refl
agree-prefix (suc n) (a ∷ s) (b ∷ first) = elim (Bool-cases (a == b)) [
  | inl y ↦ rw y (ground (arith, agree-prefix n s first, y))
  | inr f ↦ rw f refl
]

-- A string that begins both is no longer than what agrees.
agree_longest :
    (p : Str) (n : ℕ) (s first : Str)
    → has_prefix p s ≡ true
    → has_prefix p first ≡ true
    → length p ≤ n
    → length p ≤ agree n s first
unfolding agree has_prefix
agree_longest [] n s first h g l = omega arith
agree_longest (x ∷ p) zero s first h g l = absurd (omega (arith, l))
agree_longest (x ∷ p) (suc n) [] first h g l = absurd (grind (arith, h))
agree_longest (x ∷ p) (suc n) (a ∷ s) [] h g l = absurd (grind (arith, g))
agree_longest (x ∷ p) (suc n) (a ∷ s) (b ∷ first) h g l = ground (arith, agree_longest p n s first)

-- A shorter beginning of a beginning.
pub take-prefix :
    (m n : ℕ) (first s : Str)
    → m ≤ n
    → has_prefix (take n first) s ≡ true
    → has_prefix (take m first) s ≡ true
unfolding has_prefix
take-prefix zero n first s l h = refl
take-prefix (suc m) zero first s l h = absurd (omega (arith, l))
take-prefix (suc m) (suc n) [] s l h = refl
take-prefix (suc m) (suc n) (b ∷ first) [] l h = absurd (grind (arith, h))
take-prefix (suc m) (suc n) (b ∷ first) (a ∷ s) l h = ground (arith, take-prefix m n first s, h)

shrink-le : (n : ℕ) (first : Str) (ss : List Str) → shrink n first ss ≤ n
unfolding shrink
shrink-le n first [] = omega arith
shrink-le n first (s ∷ ss) = omega (arith, shrink-le (agree n s first) first ss, agree-le n s first)

shrink-prefix :
    (n : ℕ) (first : Str) (ss : List Str)
    → All (λ (s : Str). has_prefix (take (shrink n first ss) first) s ≡ true) ss
unfolding shrink
shrink-prefix n first [] = all_nil
shrink-prefix n first (s ∷ ss) =
    all_cons
      (take-prefix (shrink (agree n s first) first ss) (agree n s first) first s
        (shrink-le (agree n s first) first ss) (agree-prefix n s first))
      (shrink-prefix (agree n s first) first ss)

shrink_longest :
    (p : Str) (n : ℕ) (first : Str) (ss : List Str)
    → has_prefix p first ≡ true
    → All (λ (s : Str). has_prefix p s ≡ true) ss
    → length p ≤ n
    → length p ≤ shrink n first ss
unfolding shrink
shrink_longest p n first [] g h l = l
shrink_longest p n first (s ∷ ss) g (all_cons b h) l =
    shrink_longest p (agree n s first) first ss g h (agree_longest p n s first b g l)

take-all_prefix : (s : Str) (n : ℕ) → has_prefix (take n s) s ≡ true
unfolding has_prefix
take-all_prefix s zero = refl
take-all_prefix [] (suc n) = refl
take-all_prefix (a ∷ s) (suc n) = ground (arith, take-all_prefix s n)

pub has_prefix-length : (p s : Str) → has_prefix p s ≡ true → length p ≤ length s
unfolding has_prefix
has_prefix-length [] s h = omega arith
has_prefix-length (a ∷ p) [] h = absurd (grind (arith, h))
has_prefix-length (a ∷ p) (b ∷ s) h = ground (arith, has_prefix-length p s, h)

-- The strings begin with the text, and no longer text begins all of them.
pub record LongestCommon (ss : List Str) (p : Str) : Type 0 where
  pub common : All (λ (s : Str). has_prefix p s ≡ true) ss
  pub longest : (q : Str) → All (λ (s : Str). has_prefix q s ≡ true) ss → length q ≤ length p

length-take : (n : ℕ) (s : Str) → n ≤ length s → length (take n s) ≡ n
length-take zero s l = refl
length-take (suc n) [] l = absurd (omega (arith, l))
length-take (suc n) (a ∷ s) l = omega (arith, length-take n s (omega (arith, l)))

longest_of :
    (first : Str) (ss : List Str) (q : Str)
    → All (λ (s : Str). has_prefix q s ≡ true) (first ∷ ss)
    → length (take (shrink (length first) first ss) first) ≡ shrink (length first) first ss
    → length q ≤ length (take (shrink (length first) first ss) first)
longest_of first ss q (all_cons g t) e =
    rw e (shrink_longest q (length first) first ss g t (has_prefix-length q first g))

-- The first commonPrefixLen bytes of the first string are the longest common beginning of all strings,
-- and they are that many.
pub common_prefix_len-LongestCommon :
    (first : Str) (ss : List Str)
    → LongestCommon (first ∷ ss) (take (common_prefix_len (first ∷ ss)) first)
      × (length (take (common_prefix_len (first ∷ ss)) first) ≡ common_prefix_len (first ∷ ss))
unfolding common_prefix_len
common_prefix_len-LongestCommon first ss =
    let n = shrink (length first) first ss in
    let e = length-take n first (shrink-le (length first) first ss) in
    (
      record {
        common = all_cons (take-all_prefix first n) (shrink-prefix (length first) first ss);
        longest = λ q h. longest_of first ss q h e;
      },
      e,
    )
