-- ===== src/Base/Results.antt =====
-- A value or a raised error, for the functions of the program that raise.
use resin_compute.Base.Tests.{if◌then◌else◌}
use mathlib.Core.Path.{◌≡◌, refl}
use mathlib.Core.Logic.{◌⊎◌, inl, inr}
use mathlib.Core.Bool.{Bool}

pub data Outcome {ℓ} (E : Type 0) (A : Type ℓ) : Type ℓ where
  err : E → Outcome E A
  ok : A → Outcome E A

module _ {E : Type 0} where
  infixl 5 ◌>>=◌ ◌>>◌
  -- The first error ends a block.
  abbrev pub ◌>>=◌ {ℓ κ} : {A : Type ℓ} {B : Type κ} → Outcome E A → (A → Outcome E B) → Outcome E B
  err e >>= next = err e
  ok a >>= next = next a

  abbrev pub ◌>>◌ {κ} : {B : Type κ} → Outcome E (Unit {0}) → Outcome E B → Outcome E B
  err e >> rest = err e
  ok _ >> rest = rest

  -- `if test: raise e`
  abbrev pub refuse_if : Bool → E → Outcome E (Unit {0})
  refuse_if test e = if test then err e else ok tt

  module _ {ℓ} {A : Type ℓ} where
    -- To split on whether a call returned.
    pub Outcome-cases : (r : Outcome E A) → ((a : A) × (r ≡ ok a)) ⊎ ((e : E) × (r ≡ err e))
    Outcome-cases (err e) = inr (e, refl)
    Outcome-cases (ok a) = inl (a, refl)

    pub ok-injective : {a b : A} → ◌≡◌ {A = Outcome E A} (ok a) (ok b) → a ≡ b
    ok-injective h = cc

    pub err-injective : {a b : E} → ◌≡◌ {A = Outcome E A} (err a) (err b) → a ≡ b
    err-injective h = cc

  -- A block that returned has passed its first step.
  pub bind_inv {ℓ κ} :
      {A : Type ℓ} {B : Type κ} (first : Outcome E A) (next : A → Outcome E B) {b : B}
      → ◌>>=◌ first next ≡ ok b
      → (a : A) × (first ≡ ok a) × (next a ≡ ok b)
  bind_inv (ok a) next h = (a, refl, h)
  bind_inv (err e) next h = cc

  pub then_inv {κ} :
      {B : Type κ} (first : Outcome E (Unit {0})) (rest : Outcome E B) {b : B}
      → ◌>>◌ first rest ≡ ok b
      → (first ≡ ok tt) × (rest ≡ ok b)
  then_inv (ok tt) rest h = (refl, h)
  then_inv (err e) rest h = cc
