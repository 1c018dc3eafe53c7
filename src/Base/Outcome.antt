-- ===== src/Base/Outcome.antt =====
-- Go's (value, error) pair as a sum. `panicked` stands for a run-time panic.
use mathlib.Core.Path.{◌≡◌, refl}
use mathlib.Core.Logic.{◌⊎◌, inl, inr}
use mathlib.Core.Bool.{Bool, true, false}

pub data Result {ℓ κ} (E : Type κ) (A : Type ℓ) : Type (ℓ ⊔ κ) where
  ok : A → Result E A
  err : E → Result E A
  panicked : Result E A

-- An `if` that returns an error.
abbrev pub guard {μ} : {E : Type μ} → Bool → E → Result E (Unit {0})
guard test failure = elim test [ true ↦ ok tt | false ↦ err failure ]

-- The code goes on with the value, or hands on what ended it.
infixl 5 ◌>>=◌
abbrev pub ◌>>=◌ {ℓ κ μ} :
    {E : Type μ} {A : Type ℓ} {B : Type κ} → Result E A → (A → Result E B) → Result E B
panicked >>= next = panicked
err failure >>= next = err failure
ok value >>= next = next value

infixl 5 ◌>>◌
abbrev pub ◌>>◌ {ℓ μ} : {E : Type μ} {B : Type ℓ} → Result E (Unit {0}) → Result E B → Result E B
check >> next = check >>= λ _. next

-- A property of a successful bind, from its steps.
pub when_ok {ℓ κ μ ν} :
    {E : Type μ} {A : Type ℓ} {B : Type κ} {P : Type ν} (m : Result E A) (f : A → Result E B)
    {b : B}
    → (m >>= f) ≡ ok b
    → ((a : A) → m ≡ ok a → f a ≡ ok b → P)
    → P
when_ok (ok a) f h k = k a refl h
when_ok (err e) f h k = cc
when_ok panicked f h k = cc

-- To split on a computed result and keep the equation.
pub Result-cases {ℓ κ} :
    {E : Type κ} {A : Type ℓ} (r : Result E A)
    → ((a : A) × (r ≡ ok a)) ⊎ (((e : E) × (r ≡ err e)) ⊎ (r ≡ panicked))
Result-cases (ok a) = inl (a, refl)
Result-cases (err e) = inr (inl (e, refl))
Result-cases panicked = inr (inr refl)
