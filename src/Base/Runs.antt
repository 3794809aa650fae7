-- ===== src/Base/Runs.antt =====
-- The ways in which a routine can end: with a value, in a failed check (`CHECK_CONDITION`, a
-- crashing `Log`, or a read through a null pointer), or with the model's loop bound used up.
use mathlib.Core.Bool.{Bool, true, false}

pub data Outcome {ℓ} (A : Type ℓ) : Type ℓ where
  ok : A → Outcome A
  crash : Outcome A
  out_of_fuel : Outcome A

infixl 5 ◌>>=◌ ◌>>◌
abbrev pub ◌>>=◌ {ℓ κ} : {A : Type ℓ} {B : Type κ} → Outcome A → (A → Outcome B) → Outcome B
ok a >>= f = f a
crash >>= f = crash
out_of_fuel >>= f = out_of_fuel

abbrev pub ◌>>◌ {ℓ} : {B : Type ℓ} → Outcome (Unit {0}) → Outcome B → Outcome B
m >> k = m >>= λ _. k

-- `CHECK_CONDITION`
abbrev pub check : Bool → Outcome (Unit {0})
check true = ok tt
check false = crash

-- The routine ends, with a value that has the property, or in a crash where one is allowed.
abbrev pub Decides {ℓ} : {A : Type ℓ} → (A → Type 0) → Type 0 → Outcome A → Type 0
Decides P Q (ok a) = P a
Decides P Q crash = Q
Decides P Q out_of_fuel = ⊥

-- The routine ends, in a crash or with a value that has the property.
abbrev pub Ends {ℓ} : {A : Type ℓ} → (A → Type 0) → Outcome A → Type 0
Ends P (ok a) = P a
Ends P crash = Unit
Ends P out_of_fuel = ⊥

pub Ends->>= {ℓ κ} :
    {A : Type ℓ} {B : Type κ} (P : A → Type 0) (Q : B → Type 0) (m : Outcome A) (f : A → Outcome B)
    → Ends P m
    → ((a : A) → P a → Ends Q (f a))
    → Ends Q (m >>= f)
Ends->>= P Q (ok a) f h k = k a h
Ends->>= P Q crash f h k = tt
Ends->>= P Q out_of_fuel f h k = absurd h
