-- ===== src/Prelude/Errors.antt =====
-- A Go result with an error: the value, or the error that is returned in its place.
use mathlib.Core.Path.{◌≡◌, refl}
use mathlib.Core.Logic.{◌⊎◌, inl, inr}

pub data Result {ℓ κ} (E : Type κ) (X : Type ℓ) : Type (ℓ ⊔ κ) where
  ok : X → Result E X
  err : E → Result E X

-- `if err != nil { return err }` between two calls
infixl 5 ◌>>=◌
abbrev pub ◌>>=◌ {ℓ μ κ} :
    {E : Type κ} {X : Type ℓ} {Y : Type μ} → Result E X → (X → Result E Y) → Result E Y
call >>= next = elim call [ ok x ↦ next x | err e ↦ err e ]

-- Where a chain of two calls succeeds, both do.
module _ {ℓ μ κ} {E : Type κ} {X : Type ℓ} {Y : Type μ} where
  pub >>=-eq-ok :
      (call : Result E X) (next : X → Result E Y) {y : Y}
      → (call >>= next) ≡ ok y
      → (x : X) × (call ≡ ok x) × (next x ≡ ok y)
  >>=-eq-ok (err e) next done = cc
  >>=-eq-ok (ok x) next done = (x, refl, done)

pub ok-injective {ℓ κ} :
    {E : Type κ} {X : Type ℓ} {a b : X} → ◌≡◌ {A = Result E X} (ok a) (ok b) → a ≡ b
ok-injective h = cc

-- A chain of two calls fails where the first does, or else the second.
pub >>=-eq-err {ℓ μ κ} :
    {E : Type κ} {X : Type ℓ} {Y : Type μ} (call : Result E X) (next : X → Result E Y) {e : E}
    → (call >>= next) ≡ err e
    → (call ≡ err e) ⊎ ((x : X) × (call ≡ ok x) × (next x ≡ err e))
>>=-eq-err (ok x) next h = inr (x, refl, h)
>>=-eq-err (err e) next h = inl (cc)
