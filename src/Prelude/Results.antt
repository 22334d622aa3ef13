-- ===== src/Prelude/Results.antt =====
-- The result of kernel code that can stop: `abort` is the kernel's `abort()`, `fault` an access
-- that C leaves undefined (a null pointer, an index past an array, memory not yet written).
use mathlib.Core.Path.{◌≡◌, refl}
use mathlib.Core.Option.{Option, none, some}

pub data Outcome {ℓ} (A : Type ℓ) : Type ℓ where
  ok : A → Outcome A
  abort : Outcome A
  fault : Outcome A

infixl 5 ◌>>=◌
abbrev pub ◌>>=◌ {ℓ κ} : {A : Type ℓ} {B : Type κ} → Outcome A → (A → Outcome B) → Outcome B
ok a >>= f = f a
abort >>= f = abort
fault >>= f = fault

-- A read that faults where there is nothing to read.
abbrev pub access {ℓ} : {A : Type ℓ} → Option A → Outcome A
access none = fault
access (some a) = ok a

-- What ends well has begun well.
pub >>=-eq-ok {ℓ κ} :
    {A : Type ℓ} {B : Type κ} (first : Outcome A) (rest : A → Outcome B) {end : B}
    → first >>= rest ≡ ok end
    → (mid : A) × (first ≡ ok mid) × (rest mid ≡ ok end)
>>=-eq-ok fault rest e = cc
>>=-eq-ok abort rest e = cc
>>=-eq-ok (ok mid) rest e = (mid, refl, e)

pub access-eq-ok {ℓ} : {A : Type ℓ} (o : Option A) {a : A} → access o ≡ ok a → o ≡ some a
access-eq-ok none h = cc
access-eq-ok (some a) h = cc
