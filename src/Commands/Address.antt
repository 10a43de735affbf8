-- ===== src/Commands/Address.antt =====
-- chatterc/commands/commands.go: is a token the beginning of an IP address?
use chatter.Base.{
  ℕ, suc, ◌+◌, Bool, true, false, not, ◌&&◌, ◌||◌, List, [], ◌∷◌, Option, none, some, leb, ltb,
  ◌==◌, if◌then◌else◌, Str, codes, has_prefix, strip_prefix, length,
}

-- `strings.Split(s, sep)` at a separator of one byte; there is always a part.
abbrev pub push_first : ℕ → List Str → List Str
push_first c [] = (c ∷ []) ∷ []
push_first c (part ∷ parts) = (c ∷ part) ∷ parts

unfoldable pub split : ℕ → Str → List Str
split sep [] = [] ∷ []
split sep (c ∷ s) = if c == sep then [] ∷ split sep s else push_first c (split sep s)

abbrev pub is_digit : ℕ → Bool
is_digit c = leb b'0' c && leb c b'9'

unfoldable pub all_bytes : (ℕ → Bool) → Str → Bool
all_bytes test [] = true
all_bytes test (c ∷ s) = test c && all_bytes test s

-- The tests on the first bytes of an octet: a leading zero, and more than 255.
unfoldable pub in_range : Str → Bool
in_range (a ∷ b ∷ []) = not (a == b'0')
in_range (a ∷ b ∷ c ∷ []) =
    not (a == b'0')
    && not (ltb b'2' a)
    && not (a == b'2' && ltb b'5' b)
    && not (a == b'2' && b == b'5' && ltb b'5' c)
in_range _ = true

-- The tests of the loop on an octet that is not empty.
unfoldable pub octet_ok : Str → Bool
unfolding all_bytes in_range
octet_ok o = leb (length o) 3 && all_bytes is_digit o && in_range o

-- The loop over the octets: only the last may be empty.
unfoldable pub octets_ok : List Str → Bool
unfolding octet_ok
octets_ok [] = true
octets_ok ([] ∷ []) = true
octets_ok ([] ∷ o ∷ os) = false
octets_ok ((c ∷ o) ∷ os) = octet_ok (c ∷ o) && octets_ok os

-- `isPrefixOfIPv4Address(s)`
unfoldable pub is_prefix_of_ipv4 : Str → Bool
unfolding split octets_ok
is_prefix_of_ipv4 [] = true
is_prefix_of_ipv4 (c ∷ s) =
    let octets = split b'.' (c ∷ s) in not (ltb 4 (length octets)) && octets_ok octets

-- `strings.ToLower`, on ASCII. No other letter has a hexadecimal digit, `:` or `.` for its lower
-- case, so the tests below answer the same.
abbrev lower : ℕ → ℕ
lower c = if leb b'A' c && leb c b'Z' then c + 32 else c

unfoldable pub to_lower : Str → Str
to_lower [] = []
to_lower (c ∷ s) = lower c ∷ to_lower s

-- `countOverlapping(s, substr)`
unfoldable pub count_overlapping : Str → Str → ℕ
unfolding has_prefix
count_overlapping [] substr = 0
count_overlapping (c ∷ s) substr =
    (if has_prefix substr (c ∷ s) then 1 else 0) + count_overlapping s substr

abbrev is_hex : ℕ → Bool
is_hex c = is_digit c || (leb b'a' c && leb c b'f')

-- A hextet that is empty is passed over by the loop.
unfoldable pub hextet_ok : Str → Bool
unfolding all_bytes
hextet_ok s = leb (length s) 4 && all_bytes is_hex s

unfoldable pub all_parts : (Str → Bool) → List Str → Bool
all_parts test [] = true
all_parts test (s ∷ ss) = test s && all_parts test ss

unfoldable pub count_empty : List Str → ℕ
count_empty [] = 0
count_empty ([] ∷ ss) = suc (count_empty ss)
count_empty ((c ∷ s) ∷ ss) = count_empty ss

-- The tests on the number of hextets, with the number of `::` and of empty hextets.
unfoldable pub count_ok : ℕ → ℕ → ℕ → Bool
count_ok n doubles empty =
    not (ltb 8 n && doubles == 0)
    && not (ltb 8 n && doubles == 1 && not (empty == 2))
    && not (ltb 9 n && doubles == 1 && not (empty == 1))

hextets_ok : List Str → ℕ → Bool
unfolding count_ok all_parts hextet_ok count_empty
hextets_ok hextets doubles =
    count_ok (length hextets) doubles (count_empty hextets) && all_parts hextet_ok hextets

-- What follows `::ffff:`, an address of the other family, is tested as that.
mapped_or : Option Str → Bool → Bool
unfolding is_prefix_of_ipv4
mapped_or none other = other
mapped_or (some v4) other = is_prefix_of_ipv4 v4

lower_prefix_of_ipv6 : Str → Bool
unfolding count_overlapping mapped_or strip_prefix split hextets_ok
lower_prefix_of_ipv6 [] = true
lower_prefix_of_ipv6 (c ∷ s) =
    let doubles = count_overlapping (c ∷ s) (codes "::") in
    not (ltb 1 doubles)
    && mapped_or (strip_prefix (codes "::ffff:") (c ∷ s)) (hextets_ok (split b':' (c ∷ s)) doubles)

-- `isPrefixOfIPv6Address(s)`
unfoldable pub is_prefix_of_ipv6 : Str → Bool
unfolding to_lower lower_prefix_of_ipv6
is_prefix_of_ipv6 s = lower_prefix_of_ipv6 (to_lower s)
