-- ===== src/Base/Result.antt =====
-- A Go call that returns a value and an error: `ok` when the error is nil.
use mathlib.Core.Path.{◌≡◌, refl}
use mathlib.Core.Logic.{◌⊎◌, inl, inr}

pub data Result {ℓ κ} (E : Type ℓ) (A : Type κ) : Type (ℓ ⊔ κ) where
  ok : A → Result E A
  err : E → Result E A

infixl 5 ◌>>=◌
abbrev pub ◌>>=◌ {ℓ κ μ} :
    {E : Type ℓ} {A : Type κ} {C : Type μ} → Result E A → (A → Result E C) → Result E C
err why >>= next = err why
ok middle >>= next = next middle

pub Result-cases {ℓ κ} :
    {E : Type ℓ} {A : Type κ} (r : Result E A) → ((a : A) × (r ≡ ok a)) ⊎ ((e : E) × (r ≡ err e))
Result-cases (ok a) = inl (a, refl)
Result-cases (err e) = inr (e, refl)

module _ {ℓ κ} {E : Type ℓ} {A : Type κ} where
  pub ok-injective : {a b : A} → ◌≡◌ {A = Result E A} (ok a) (ok b) → a ≡ b
  ok-injective e = cc

  pub ok-ne-err : {a : A} {x : E} → ¬ (◌≡◌ {A = Result E A} (ok a) (err x))
  ok-ne-err e = cc

-- Where a call and what follows it succeed together, the call succeeds by itself.
module _ {ℓ κ μ} {E : Type ℓ} {A : Type κ} {C : Type μ} where
  pub >>=-eq-ok :
      (call : Result E A) (next : A → Result E C) {value : C}
      → call >>= next ≡ ok value
      → (middle : A) × (call ≡ ok middle) × (next middle ≡ ok value)
  >>=-eq-ok (err why) next both = cc
  >>=-eq-ok (ok middle) next both = (middle, refl, both)
