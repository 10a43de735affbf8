-- ===== src/Base/Lists.antt =====
-- Lists measured and indexed by native numbers, under the library's names.
use Prim.Native.Nat.{ℕ, zero, suc, ◌+◌, ◌<◌}
use mathlib.Core.Path.{◌≡◌, refl}
use mathlib.Core.Logic.{◌⊎◌, inl, inr}
use mathlib.Core.List.{List, [], ◌∷◌, ◌++◌}
use mathlib.Core.Option.{Option, none, some}
use native.Mathlib.Omega.{arith}

module _ {ℓ} {A : Type ℓ} where
  abbrev pub length : List A → ℕ
  length [] = 0
  length (x ∷ xs) = suc (length xs)

  abbrev pub get_elem? : List A → ℕ → Option A
  get_elem? [] i = none
  get_elem? (x ∷ xs) zero = some x
  get_elem? (x ∷ xs) (suc i) = get_elem? xs i

  -- A write out of bounds changes nothing.
  abbrev pub set : List A → ℕ → A → List A
  set [] i v = []
  set (x ∷ xs) zero v = v ∷ xs
  set (x ∷ xs) (suc i) v = x ∷ set xs i v

  abbrev pub take : ℕ → List A → List A
  take zero xs = []
  take (suc n) [] = []
  take (suc n) (x ∷ xs) = x ∷ take n xs

  abbrev pub drop : ℕ → List A → List A
  drop zero xs = xs
  drop (suc n) [] = []
  drop (suc n) (x ∷ xs) = drop n xs

  abbrev pub replicate : ℕ → A → List A
  replicate zero a = []
  replicate (suc n) a = a ∷ replicate n a

  pub length-append : (xs ys : List A) → length (xs ++ ys) ≡ length xs + length ys
  length-append [] ys = omega arith
  length-append (x ∷ xs) ys = omega (arith, length-append xs ys)

  pub length-replicate : (n : ℕ) (a : A) → length (replicate n a) ≡ n
  length-replicate zero a = refl
  length-replicate (suc n) a = omega (arith, length-replicate n a)

-- Every element has the property.
pub data All {ℓ κ} {A : Type ℓ} (P : A → Type κ) : List A → Type (ℓ ⊔ κ) where
  all_nil : All P []
  all_cons : {x : A} {xs : List A} → P x → All P xs → All P (x ∷ xs)

module _ {ℓ κ} {A : Type ℓ} {P : A → Type κ} where
  pub All-append : {xs ys : List A} → All P xs → All P ys → All P (xs ++ ys)
  All-append all_nil hy = hy
  All-append (all_cons x hx) hy = all_cons x (All-append hx hy)

-- Some element has the property, the witness kept.
pub data Any {ℓ κ} {A : Type ℓ} (P : A → Type κ) : List A → Type (ℓ ⊔ κ) where
  here : {x : A} {xs : List A} → P x → Any P (x ∷ xs)
  there : {x : A} {xs : List A} → Any P xs → Any P (x ∷ xs)

-- The place of an element in a list.
pub data At {ℓ} {A : Type ℓ} (a : A) : List A → Type ℓ where
  head : {xs : List A} → At a (a ∷ xs)
  tail : {x : A} {xs : List A} → At a xs → At a (x ∷ xs)

module _ {ℓ} {A : Type ℓ} where
  pub At-append_left : {a : A} {xs : List A} (ys : List A) → At a xs → At a (xs ++ ys)
  At-append_left ys head = head
  At-append_left ys (tail p) = tail (At-append_left ys p)

  pub At-append_right : {a : A} (xs : List A) {ys : List A} → At a ys → At a (xs ++ ys)
  At-append_right [] p = p
  At-append_right (x ∷ xs) p = tail (At-append_right xs p)

  pub At-append : {a : A} (xs : List A) {ys : List A} → At a (xs ++ ys) → At a xs ⊎ At a ys
  At-append [] p = inr p
  At-append (x ∷ xs) head = inl head
  At-append (x ∷ xs) (tail p) = elim (At-append xs p) [ inl q ↦ inl (tail q) | inr q ↦ inr q ]

module _ {ℓ} {A : Type ℓ} where
  pub length-set : (xs : List A) (i : ℕ) (v : A) → length (set xs i v) ≡ length xs
  length-set [] i v = refl
  length-set (x ∷ xs) zero v = refl
  length-set (x ∷ xs) (suc i) v = omega (arith, length-set xs i v)

module _ {ℓ κ} {A : Type ℓ} {P : A → Type κ} where
  pub All-set : {xs : List A} {v : A} (i : ℕ) → All P xs → P v → All P (set xs i v)
  All-set i all_nil y = all_nil
  All-set zero (all_cons x h) y = all_cons y h
  All-set (suc i) (all_cons x h) y = all_cons x (All-set i h y)

  -- An index in range finds an element.
  pub All-get_elem? :
      {xs : List A} (i : ℕ) → All P xs → i < length xs → (x : A) × (get_elem? xs i ≡ some x) × P x
  All-get_elem? i all_nil l = absurd (omega arith)
  All-get_elem? zero (all_cons {x} p h) l = (x, refl, p)
  All-get_elem? (suc i) (all_cons p h) l = All-get_elem? i h (omega arith)
