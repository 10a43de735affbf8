-- ===== src/Ospf/Checksum.antt =====
-- ospf/lsdb.go: the Fletcher checksum of an advertisement.
pub mod Sound
use chatter.Base.{
  ℕ, zero, suc, ◌+◌, ◌-◌, ◌*◌, ◌/◌, ◌%◌, ◌==◌, Bool, List, [], ◌∷◌, ◌++◌, ltb, if◌then◌else◌, take,
  drop, length, Str,
}
use chatter.Base.Int.{ℤ, pos, negsuc, sub_ℕ, rem}

pub record Sums : Type 0 where
  pub c0 : ℕ
  pub c1 : ℕ

-- One byte of the inner loop of `fletcher16`.
abbrev pub add_byte : Sums → ℕ → Sums
add_byte s b = let c0 = (s.c0 + b) % 255 in record { c0 = c0; c1 = (s.c1 + c0) % 255 }

unfoldable pub add_bytes : Sums → Str → Sums
add_bytes s [] = s
add_bytes s (b ∷ bs) = add_bytes (add_byte s b) bs

chunks : Sums → List Str → Sums
chunks s [] = s
chunks s (d ∷ ds) = chunks (add_bytes s d) ds

-- `fletcher16(data...)`: the chunks one behind the other.
unfoldable pub fletcher16 : List Str → Sums
unfolding add_bytes chunks
fletcher16 parts = chunks (record { c0 = 0; c1 = 0 }) parts

-- `uint16(a<<8 | b)` for `b` below 256, as it is at both uses.
abbrev pub pack : ℕ → ℕ → ℕ
pack a b = (a * 256 + b) % 65536

-- `fletcher16Checksum(data)`
unfoldable pub fletcher16_checksum : Str → ℕ
unfolding fletcher16
fletcher16_checksum bytes = let s = fletcher16 (bytes ∷ []) in pack s.c1 s.c0

-- `if x <= 0 { x += 255 }`, for an `x` above -255.
abbrev pub positive : ℤ → ℕ
positive (pos zero) = 255
positive (pos (suc n)) = suc n
positive (negsuc n) = 255 - suc n

-- The byte `x` of the checksum, from the sums and the number of bytes behind the field's first
-- byte.
unfoldable pub first_byte : ℕ → Sums → ℕ
unfolding rem
first_byte k s = positive (rem (sub_ℕ (k * s.c0) s.c1) 255)

-- The byte `y`: `510 - c0 - x` is never negative, since c0 is at most 254 and x at most 255.
unfoldable pub second_byte : ℕ → ℕ → ℕ
second_byte c0 x = if ltb 255 (510 - c0 - x) then 510 - c0 - x - 255 else 510 - c0 - x

-- `fletcher16GenerateChecksum(data, offset)`
unfoldable pub generate_checksum : Str → ℕ → ℕ
unfolding fletcher16 first_byte second_byte
generate_checksum bytes offset =
    let s = fletcher16 (take offset bytes ∷ (0 ∷ 0 ∷ []) ∷ drop (offset + 2) bytes ∷ []) in
    let x = first_byte (length bytes - offset - 1) s in pack x (second_byte s.c0 x)

-- ospf/lsdb.go, `lsaBase`: the age is the first two bytes, big-endian; the checksum covers the
-- rest.
unfoldable pub set_age : ℕ → Str → Str
set_age age bytes = (age / 256) ∷ (age % 256) ∷ drop 2 bytes

unfoldable pub is_checksum_valid : Str → Bool
unfolding fletcher16_checksum
is_checksum_valid bytes = fletcher16_checksum (drop 2 bytes) == 0
