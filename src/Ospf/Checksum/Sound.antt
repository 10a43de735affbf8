-- ===== src/Ospf/Checksum/Sound.antt =====
-- A generated checksum makes the advertisement verify.
use native.Mathlib.Nat.{div-add-mod, zero-add, suc-add}
use chatter.Base.{
  ℕ, suc, ◌+◌, ◌-◌, ◌*◌, ◌/◌, ◌%◌, ◌≤◌, ◌<◌, ◌≡◌, refl, sym, ap, ◌∙◌, arith, List, [], ◌∷◌, ◌++◌,
  take, drop, length, length-append, Str,
}
use chatter.Base.Int.{ℤ, pos, negsuc, sub_ℕ, rem}
use chatter.Ospf.Checksum.{
  Sums, add_byte, add_bytes, fletcher16, pack, fletcher16_checksum, positive, first_byte,
  second_byte, generate_checksum, set_age, is_checksum_valid,
}

sum : Str → ℕ
sum [] = 0
sum (b ∷ bs) = b + sum bs

-- Each byte counts once for itself and once for each byte behind it.
weigh : Str → ℕ
weigh [] = 0
weigh (b ∷ bs) = suc (length bs) * b + weigh bs

weigh-append : (xs ys : Str) → weigh (xs ++ ys) ≡ weigh xs + length ys * sum xs + weigh ys
unfolding sum weigh
weigh-append [] ys = omega arith
weigh-append (x ∷ xs) ys =
    omega (arith, weigh-append xs ys, ap (λ (n : ℕ). n * x) (length-append xs ys))

sum-append : (xs ys : Str) → sum (xs ++ ys) ≡ sum xs + sum ys
unfolding sum
sum-append [] ys = omega arith
sum-append (x ∷ xs) ys = omega (arith, sum-append xs ys)

add_byte-mod :
    (n q r c0 b c1 w : ℕ)
    → c0 + b ≡ 255 * q + r
    → ((c1 + r) % 255 + n * r + w) % 255 ≡ (c1 + suc n * c0 + (suc n * b + w)) % 255
add_byte-mod n q r c0 b c1 w h = omega (arith, ap (λ (t : ℕ). n * t) h)

add_bytes-mod :
    (s : Sums) (bs : Str)
    → ((add_bytes s bs).c0 % 255 ≡ (s.c0 + sum bs) % 255)
      × ((add_bytes s bs).c1 % 255 ≡ (s.c1 + length bs * s.c0 + weigh bs) % 255)
unfolding add_bytes sum weigh
add_bytes-mod s [] = (omega arith, omega arith)
add_bytes-mod s (b ∷ bs) =
    let (x, y) = add_bytes-mod (add_byte s b) bs in
    (
      omega (arith, x),
      y
          ∙ add_byte-mod (length bs) ((s.c0 + b) / 255) ((s.c0 + b) % 255) s.c0 b s.c1 (weigh bs)
              (sym (div-add-mod (s.c0 + b) 255)),
    )

add_bytes-lt :
    (s : Sums) (bs : Str)
    → s.c0 < 255
    → s.c1 < 255
    → ((add_bytes s bs).c0 < 255) × ((add_bytes s bs).c1 < 255)
unfolding add_bytes
add_bytes-lt s [] h k = (h, k)
add_bytes-lt s (b ∷ bs) h k = add_bytes-lt (add_byte s b) bs (omega arith) (omega arith)

add_bytes-append : (s : Sums) (xs ys : Str) → add_bytes s (xs ++ ys) ≡ add_bytes (add_bytes s xs) ys
unfolding add_bytes
add_bytes-append s [] ys = refl
add_bytes-append s (x ∷ xs) ys = add_bytes-append (add_byte s x) xs ys

abbrev start : Sums
start = record { c0 = 0; c1 = 0 }

-- The sums of all bytes, below 255.
add_bytes-start :
    (bs : Str)
    → ((add_bytes start bs).c0 ≡ sum bs % 255) × ((add_bytes start bs).c1 ≡ weigh bs % 255)
add_bytes-start bs =
    omega (arith, add_bytes-mod start bs, add_bytes-lt start bs (omega arith) (omega arith))

positive-rem :
    (m c1 : ℕ) (z : ℤ)
    → z ≡ sub_ℕ m c1
    → (1 ≤ positive (rem z 255))
      × (positive (rem z 255) ≤ 255)
      × ((positive (rem z 255) + c1) % 255 ≡ m % 255)
unfolding rem
positive-rem m c1 (pos n) e = ground arith
positive-rem m c1 (negsuc n) e = ground arith

first_byte_lem :
    (k : ℕ) (s : Sums)
    → (1 ≤ first_byte k s)
      × (first_byte k s ≤ 255)
      × ((first_byte k s + s.c1) % 255 ≡ (k * s.c0) % 255)
unfolding first_byte
first_byte_lem k s = positive-rem (k * s.c0) s.c1 _ refl

second_byte_lem :
    (c0 x : ℕ)
    → c0 < 255
    → 1 ≤ x
    → x ≤ 255
    → (1 ≤ second_byte c0 x) × (second_byte c0 x ≤ 255) × ((c0 + x + second_byte c0 x) % 255 ≡ 0)
unfolding second_byte
second_byte_lem c0 x h l u = ground arith

-- The field's two bytes cancel the sums of the rest.
cancel :
    (k c0 c1 x y : ℕ)
    → (c0 + x + y) % 255 ≡ 0
    → (x + c1) % 255 ≡ (k * c0) % 255
    → (c1 + suc k * x + k * y) % 255 ≡ 0
cancel k c0 c1 x y h e =
    omega
      (arith, ap (λ (t : ℕ). k * t) (sym (div-add-mod (c0 + x + y) 255)), ap (λ (t : ℕ). k * t) h)

module _ {ℓ} {A : Type ℓ} where
  take-append : (xs ys : List A) → take (length xs) (xs ++ ys) ≡ xs
  take-append [] ys = refl
  take-append (x ∷ xs) ys = ap (◌∷◌ x) (take-append xs ys)

  drop-append : (xs ys : List A) (k : ℕ) → drop (length xs + k) (xs ++ ys) ≡ drop k ys
  drop-append [] ys k = rw zero-add
  drop-append (x ∷ xs) ys k = rw suc-add (drop-append xs ys k)

module _ (pre post : Str) where
  abbrev with_field : ℕ → ℕ → Str
  with_field x y = pre ++ (x ∷ y ∷ post)

  fletcher16_zeroed :
      (a b : ℕ)
      → fletcher16 (
          take (length pre) (with_field a b)
          ∷ (0 ∷ 0 ∷ [])
          ∷ drop (length pre + 2) (with_field a b)
          ∷ [])
        ≡ add_bytes start (with_field 0 0)
  unfolding fletcher16
  fletcher16_zeroed a b =
      rw (take-append pre (a ∷ b ∷ post), drop-append pre (a ∷ b ∷ post) 2)
        (sym (add_bytes-append start pre (0 ∷ 0 ∷ post)))

  field_length : (a b : ℕ) → length (with_field a b) - length pre - 1 ≡ suc (length post)
  field_length a b = omega (arith, length-append pre (a ∷ b ∷ post))

  verifies_of :
      (x y : ℕ)
      → let s = add_bytes start (with_field 0 0) in
        (s.c0 + x + y) % 255 ≡ 0
        → (x + s.c1) % 255 ≡ (suc (length post) * s.c0) % 255
        → fletcher16_checksum (with_field x y) ≡ 0
  unfolding fletcher16_checksum sum weigh
  verifies_of x y h e =
      let z = with_field 0 0 in
      let o = with_field x y in
      omega (
        arith,
        add_bytes-start z,
        add_bytes-start o,
        sum-append pre (0 ∷ 0 ∷ post),
        sum-append pre (x ∷ y ∷ post),
        weigh-append pre (0 ∷ 0 ∷ post),
        weigh-append pre (x ∷ y ∷ post),
        cancel (suc (length post)) (add_bytes start z).c0 (add_bytes start z).c1 x y h e,
      )

  -- The checksum that is generated for a field at `offset`, written there in big-endian order,
  -- makes the checksum of the whole 0, whatever the field held before.
  pub fletcher16_checksum-generate_checksum :
      (a b : ℕ)
      → let c = generate_checksum (pre ++ (a ∷ b ∷ post)) (length pre) in
        fletcher16_checksum (pre ++ ((c / 256) ∷ (c % 256) ∷ post)) ≡ 0
  unfolding generate_checksum
  fletcher16_checksum-generate_checksum a b =
      rw (fletcher16_zeroed a b, field_length a b)
        (let s = add_bytes start (with_field 0 0) in
          let x = first_byte (suc (length post)) s in
          let (l, u, e) = first_byte_lem (suc (length post)) s in
          let (c0lt, c1lt) = add_bytes-lt start (with_field 0 0) (omega arith) (omega arith) in
          let (l2, u2, h) = second_byte_lem s.c0 x c0lt l u in
          let high : pack x (second_byte s.c0 x) / 256 ≡ x = omega arith in
          let low : pack x (second_byte s.c0 x) % 256 ≡ second_byte s.c0 x = omega arith in
          rw (high, low) (verifies_of x (second_byte s.c0 x) h e))

-- Setting the age does not change whether the checksum is valid.
pub is_checksum_valid-set_age :
    (age : ℕ) (bytes : Str) → is_checksum_valid (set_age age bytes) ≡ is_checksum_valid bytes
unfolding is_checksum_valid set_age
is_checksum_valid-set_age age bytes = refl
