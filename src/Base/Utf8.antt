-- ===== src/Base/Utf8.antt =====
-- The parts of Go's `unicode/utf8`, `unicode` and `strings` that the command line uses.
use chatter.Base.Tests.{ltb, leb, ◌==◌, if◌then◌else◌}
use chatter.Base.Text.{Str}
use chatter.Base.Lists.{length, drop, take}
use Prim.Native.Nat.{ℕ, zero, suc, ◌+◌, ◌-◌, ◌*◌, ◌≤◌, ◌<◌}
use mathlib.Core.Path.{◌≡◌}
use mathlib.Core.Bool.{Bool, true, false, ◌&&◌, ◌||◌}
use mathlib.Core.List.{List, [], ◌∷◌, ◌++◌, reverse}
use native.Mathlib.Omega.{arith}

-- `utf8.RuneError`
abbrev pub rune_error : ℕ
rune_error = 0xfffd

abbrev within : ℕ → ℕ → ℕ → Bool
within lo hi c = leb lo c && leb c hi

-- The bytes behind a lead byte: `m` is the value so far, in order, and `n` of them are left.
abbrev invalid : ℕ × ℕ
invalid = (rune_error, 1)

abbrev two : ℕ → Str → ℕ × ℕ
two p [] = invalid
two p (b ∷ s) = if within 0x80 0xbf b then ((p - 0xc0) * 64 + (b - 0x80), 2) else invalid

abbrev three : ℕ → ℕ → ℕ → Str → ℕ × ℕ
three p lo hi (b ∷ c ∷ s) =
    if within lo hi b && within 0x80 0xbf c
    then ((p - 0xe0) * 4096 + (b - 0x80) * 64 + (c - 0x80), 3)
    else invalid
three p lo hi _ = invalid

abbrev four : ℕ → ℕ → ℕ → Str → ℕ × ℕ
four p lo hi (b ∷ c ∷ d ∷ s) =
    if within lo hi b && within 0x80 0xbf c && within 0x80 0xbf d
    then ((p - 0xf0) * 262144 + (b - 0x80) * 4096 + (c - 0x80) * 64 + (d - 0x80), 4)
    else invalid
four p lo hi _ = invalid

-- `utf8.DecodeRuneInString(s)`: the first rune and its size in bytes.
unfoldable pub decode_rune : Str → ℕ × ℕ
decode_rune [] = (rune_error, 0)
decode_rune (p ∷ s) =
    if ltb p 0x80
    then (p, 1)
    else if within 0xc2 0xdf p
    then two p s
    else if p == 0xe0
    then three p 0xa0 0xbf s
    else if p == 0xed
    then three p 0x80 0x9f s
    else if within 0xe1 0xef p
    then three p 0x80 0xbf s
    else if p == 0xf0
    then four p 0x90 0xbf s
    else if p == 0xf4
    then four p 0x80 0x8f s
    else if within 0xf1 0xf3 p
    then four p 0x80 0xbf s
    else invalid

-- `unicode.IsSpace(r)`
unfoldable pub is_space : ℕ → Bool
is_space r =
    within 9 13 r
    || r == 0x20
    || r == 0x85
    || r == 0xa0
    || r == 0x1680
    || within 0x2000 0x200a r
    || r == 0x2028
    || r == 0x2029
    || r == 0x202f
    || r == 0x205f
    || r == 0x3000

-- A decoded rune takes between one byte and all that there are.
pub decode_rune_size :
    (p : ℕ) (s : Str) → (1 ≤ (decode_rune (p ∷ s)).1) × ((decode_rune (p ∷ s)).1 ≤ length (p ∷ s))
unfolding decode_rune
decode_rune_size p [] = ground arith
decode_rune_size p (a ∷ []) = ground arith
decode_rune_size p (a ∷ b ∷ []) = ground arith
decode_rune_size p (a ∷ b ∷ c ∷ s) = ground arith

-- An ASCII byte is its own rune.
pub decode_rune_ascii : (p : ℕ) (s : Str) → p < 0x80 → decode_rune (p ∷ s) ≡ (p, 1)
unfolding decode_rune
decode_rune_ascii p s h = ground arith

-- A field is closed at a space, unless nothing was read of it.
abbrev close_field : Str → List Str → List Str
close_field [] fields = fields
close_field (c ∷ word) fields = (c ∷ word) ∷ fields

-- `strings.Fields`, with the word that is being read; each round takes one rune.
unfoldable pub fields_from : ℕ → Str → Str → List Str
unfolding decode_rune is_space
fields_from zero word s = close_field word []
fields_from (suc fuel) word [] = close_field word []
fields_from (suc fuel) word (b ∷ s) =
    let size : ℕ = (decode_rune (b ∷ s)).1 in
    elim (is_space (decode_rune (b ∷ s)).0) [
      | true ↦ close_field word (fields_from fuel [] (drop size (b ∷ s)))
      | false ↦ fields_from fuel (word ++ take size (b ∷ s)) (drop size (b ∷ s))
    ]

-- One round for each byte is enough.
unfoldable pub fields : Str → List Str
unfolding fields_from
fields s = fields_from (length s) [] s

-- The bytes from the last one that begins a rune, at most four back; the first argument is how
-- many more may be taken, the second what is taken, the third the rest in reverse.
abbrev last_start : ℕ → Str → Str → Str
last_start zero taken back = taken
last_start (suc n) taken [] = taken
last_start (suc n) taken (b ∷ back) =
    let more = last_start n (b ∷ taken) back in if within 0x80 0xbf b then more else (b ∷ taken)

abbrev whole : Str → ℕ × ℕ → ℕ × ℕ
whole taken (r, size) = if size == length taken then (r, size) else (rune_error, 1)

abbrev last_rune : Str → ℕ × ℕ
last_rune [] = (rune_error, 0)
last_rune (b ∷ back) =
    let multi = last_start 3 (b ∷ []) back in
    if ltb b 0x80 then (b, 1) else whole multi (decode_rune multi)

-- `utf8.DecodeLastRuneInString(s)`
unfoldable pub decode_last_rune : Str → ℕ × ℕ
unfolding decode_rune
decode_last_rune s = last_rune (reverse s)
