-- ===== src/Prelude/Results.antt =====
-- A result with an error, for what the source throws, and its `do` notation.
use mathlib.Core.Path.{◌≡◌, refl}
use mathlib.Core.Logic.{◌⊎◌, inl, inr}
use mathlib.Core.Bool.{Bool, true, false}

pub data Result {ℓ κ} (E : Type ℓ) (A : Type κ) : Type (ℓ ⊔ κ) where
  ok : A → Result E A
  err : E → Result E A

-- `if (!test) throw e`
abbrev pub guard {ℓ} : {E : Type ℓ} → Bool → E → Result E (Unit {0})
guard passed thrown = elim passed [ true ↦ ok tt | false ↦ err thrown ]

infixl 5 ◌>>=◌ ◌>>◌
abbrev pub ◌>>=◌ {ℓ κ μ} :
    {E : Type ℓ} {A : Type κ} {B : Type μ} → Result E A → (A → Result E B) → Result E B
err thrown >>= next = err thrown
ok result >>= next = next result

abbrev pub ◌>>◌ {ℓ κ} : {E : Type ℓ} {B : Type κ} → Result E (Unit {0}) → Result E B → Result E B
err thrown >> next = err thrown
ok done >> next = next

pub passed-ok {ℓ} :
    {E : Type ℓ} (passed : Bool) (thrown : E) → guard passed thrown ≡ ok tt → passed ≡ true
passed-ok true thrown h = refl
passed-ok false thrown h = cc

-- A chain that succeeds: each of its steps did.
module _ {ℓ κ} {E : Type ℓ} {B : Type κ} {b : B} where
  pub bind-ok {μ} :
      {A : Type μ} (m : Result E A) {next : A → Result E B}
      → (m >>= next) ≡ ok b
      → (a : A) × (m ≡ ok a) × (next a ≡ ok b)
  bind-ok (ok a) h = (a, refl, h)
  bind-ok (err e) h = cc

  pub guard-ok :
      (passed : Bool) (thrown : E) {next : Result E B}
      → (guard passed thrown >> next) ≡ ok b
      → (passed ≡ true) × (next ≡ ok b)
  guard-ok true thrown h = (refl, h)
  guard-ok false thrown h = cc

  pub then-ok :
      (m : Result E (Unit {0})) {next : Result E B}
      → (m >> next) ≡ ok b
      → (m ≡ ok tt) × (next ≡ ok b)
  then-ok (ok tt) h = (refl, h)
  then-ok (err e) h = cc

pub Result-cases {ℓ κ} :
    {E : Type ℓ} {A : Type κ} (m : Result E A) → ((a : A) × (m ≡ ok a)) ⊎ ((e : E) × (m ≡ err e))
Result-cases (ok a) = inl (a, refl)
Result-cases (err e) = inr (e, refl)

pub ok-injective {ℓ κ} :
    {E : Type ℓ} {A : Type κ} {a b : A} → ◌≡◌ {A = Result E A} (ok a) (ok b) → a ≡ b
ok-injective h = cc

pub ok≢err {ℓ κ} :
    {E : Type ℓ} {A : Type κ} {a : A} {e : E} → ◌≡◌ {A = Result E A} (ok a) (err e) → ⊥
ok≢err h = cc
