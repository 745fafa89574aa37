-- ===== src/Common/Outcomes.antt =====
-- The outcome of C code that may read through a bad pointer.

-- A null pointer is read or written through, or a pointer that points at no object of its type.
-- `out_of_fuel` is the model's own: the bound on the rounds of a loop was too small.
pub data Fault : Type 0 where
  null_pointer wild_pointer out_of_fuel : Fault

pub data Outcome {ℓ} (A : Type ℓ) : Type ℓ where
  ok : A → Outcome A
  fault : Fault → Outcome A

infixl 5 ◌>>=◌
abbrev pub ◌>>=◌ {ℓ κ} : {A : Type ℓ} {B : Type κ} → Outcome A → (A → Outcome B) → Outcome B
ok a >>= f = f a
fault e >>= f = fault e
