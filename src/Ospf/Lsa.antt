-- ===== src/Ospf/Lsa.antt =====
-- ospf/lsdb.go, `lsaHeader`: which of two instances of an advertisement is the more recent.
pub mod Recency
use chatter.Base.{ℕ, ◌+◌, ◌-◌, Bool, true, false, not, ◌&&◌, List, ltb, ◌==◌, if◌then◌else◌}
use chatter.Base.Int.{ℤ, pos, negsuc, ltb_ℤ}

-- `maxAge` and `maxAgeDiff`, in seconds.
abbrev pub max_age : ℕ
max_age = 3600

abbrev pub max_age_diff : ℕ
max_age_diff = 900

-- The fields of a header that `Compare` reads: an int32, and two uint16.
pub record LsaHeader : Type 0 where
  pub sequence_number : ℤ
  pub checksum : ℕ
  pub age : ℕ

-- `abs(a1 - a2)` of two ages.
abbrev pub age_diff : ℕ → ℕ → ℕ
age_diff a b = (a - b) + (b - a)

-- `h.Compare(other)`: 1 if `h` is the more recent, -1 if `other` is, 0 if neither.
unfoldable pub compare : LsaHeader → LsaHeader → ℤ
compare h other =
    if ltb_ℤ h.sequence_number other.sequence_number
    then negsuc 0
    else if ltb_ℤ other.sequence_number h.sequence_number
    then pos 1
    else if ltb h.checksum other.checksum
    then negsuc 0
    else if ltb other.checksum h.checksum
    then pos 1
    else if not (h.age == max_age) && other.age == max_age
    then negsuc 0
    else if h.age == max_age && not (other.age == max_age)
    then pos 1
    else if ltb max_age_diff (age_diff h.age other.age) && ltb h.age other.age
    then pos 1
    else if ltb max_age_diff (age_diff h.age other.age) && ltb other.age h.age
    then negsuc 0
    else pos 0
