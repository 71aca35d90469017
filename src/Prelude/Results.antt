-- ===== src/Prelude/Results.antt =====
-- What a C++ call does: it returns, it throws `runtime_error`, or its behaviour is undefined (a null
-- pointer is followed, memory is read out of bounds), which ends the process at best.
use mathlib.Core.Path.{◌≡◌, refl, subst}

pub data Outcome {ℓ} (A : Type ℓ) : Type ℓ where
  returns : A → Outcome A
  throws : Outcome A
  undefined : Outcome A

infixl 5 ◌>>=◌
abbrev pub ◌>>=◌ {ℓ κ} : {A : Type ℓ} {B : Type κ} → Outcome A → (A → Outcome B) → Outcome B
returns a >>= f = f a
throws >>= f = throws
undefined >>= f = undefined

-- Inversion of a successful bind, for proofs where the parts stay shut.
pub >>=-eq-returns {ℓ κ} :
    {A : Type ℓ} {B : Type κ} (m : Outcome A) (f : A → Outcome B) {b : B}
    → (m >>= f) ≡ returns b
    → (a : A) × (m ≡ returns a) × (f a ≡ returns b)
>>=-eq-returns (returns a) f h = (a, refl, h)
>>=-eq-returns throws f h = cc
>>=-eq-returns undefined f h = cc

-- A condition on what a call returns, if it returns.
abbrev pub Ensures {ℓ κ} : {A : Type ℓ} → (A → Type κ) → Outcome A → Type κ
Ensures P (returns a) = P a
Ensures P throws = Unit
Ensures P undefined = Unit

pub Ensures-bind {ℓ κ ν μ} :
    {A : Type ℓ} {B : Type κ} (Q : A → Type ν) (P : B → Type μ) (m : Outcome A) (f : A → Outcome B)
    → Ensures Q m
    → ((a : A) → Q a → Ensures P (f a))
    → Ensures P (m >>= f)
Ensures-bind Q P (returns a) f h k = k a h
Ensures-bind Q P throws f h k = tt
Ensures-bind Q P undefined f h k = tt

-- The same where nothing is known of the first call.
pub Ensures-after {ℓ κ μ} :
    {A : Type ℓ} {B : Type κ} (P : B → Type μ) (m : Outcome A) (f : A → Outcome B)
    → ((a : A) → Ensures P (f a))
    → Ensures P (m >>= f)
Ensures-after P (returns a) f k = k a
Ensures-after P throws f k = tt
Ensures-after P undefined f k = tt

pub Ensures-weaken {ℓ κ ν} :
    {A : Type ℓ} {P : A → Type κ} {Q : A → Type ν} (m : Outcome A)
    → ((a : A) → P a → Q a)
    → Ensures P m
    → Ensures Q m
Ensures-weaken (returns a) f h = f a h
Ensures-weaken throws f h = tt
Ensures-weaken undefined f h = tt

pub Ensures-itself {ℓ κ} :
    {A : Type ℓ} (P : A → Type κ) (m : Outcome A)
    → Ensures P m
    → Ensures (λ a. (m ≡ returns a) × P a) m
Ensures-itself P (returns a) h = (refl, h)
Ensures-itself P throws h = tt
Ensures-itself P undefined h = tt

pub ensured {ℓ κ} :
    {A : Type ℓ} (P : A → Type κ) (m : Outcome A) (a : A) → m ≡ returns a → Ensures P m → P a
ensured P m a e h = subst (Ensures P) e h
