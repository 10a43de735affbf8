-- ===== src/Base/Text.antt =====
-- Go strings: lists of bytes, compared and searched as the `strings` package does.
use Prim.Native.Char.{code}
use Prim.Native.String.{String}
use Prim.Native.Nat.{ℕ}
use mathlib.Core.Path.{◌≡◌, refl}
use mathlib.Core.Logic.{◌↔◌}
use mathlib.Core.Bool.{Bool, true, false, ◌&&◌}
use mathlib.Core.List.{List, [], ◌∷◌, ◌++◌}
use mathlib.Core.Option.{Option, none, some}
use native.Mathlib.Omega.{arith}
use chatter.Base.Tests.{◌==◌, if◌then◌else◌}

abbrev pub Str : Type 0
Str = List ℕ

-- The bytes of an ASCII literal.
abbrev pub codes : String → Str
codes String.[] = []
codes (String.◌∷◌ c s) = code c ∷ codes s

-- `a == b` on strings.
unfoldable pub str_eq : Str → Str → Bool
str_eq [] [] = true
str_eq (a ∷ s) (b ∷ t) = a == b && str_eq s t
str_eq _ _ = false

pub str_eq_iff : (s t : Str) → (str_eq s t ≡ true) ↔ (s ≡ t)
unfolding str_eq
str_eq_iff (a ∷ s) (b ∷ t) = ground (arith, str_eq_iff s t)
str_eq_iff _ _ = ground arith

pub str_eq_refl : (s : Str) → str_eq s s ≡ true
str_eq_refl s = (str_eq_iff s s).1 refl

-- What is left of `s` behind the prefix `p`.
unfoldable pub strip_prefix : Str → Str → Option Str
strip_prefix [] s = some s
strip_prefix (a ∷ p) [] = none
strip_prefix (a ∷ p) (b ∷ s) = if a == b then strip_prefix p s else none

-- `strings.HasPrefix(s, p)`, with the prefix first.
unfoldable pub has_prefix : Str → Str → Bool
has_prefix [] s = true
has_prefix (a ∷ p) [] = false
has_prefix (a ∷ p) (b ∷ s) = a == b && has_prefix p s

pub has_prefix_append : (p s : Str) → has_prefix p (p ++ s) ≡ true
unfolding has_prefix
has_prefix_append [] s = refl
has_prefix_append (a ∷ p) s = ground (arith, has_prefix_append p s)

-- A prefix is what can be completed to the string.
pub has_prefix_sound : (p s : Str) → has_prefix p s ≡ true → (t : Str) × (s ≡ p ++ t)
unfolding has_prefix
has_prefix_sound [] s h = (s, refl)
has_prefix_sound (a ∷ p) [] h = cc
has_prefix_sound (a ∷ p) (b ∷ s) h =
    let (t, e) = has_prefix_sound p s (ground arith) in (t, ground (arith, e))
