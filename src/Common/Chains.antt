-- ===== src/Common/Chains.antt =====
-- What holds of an outcome, and of a chain of steps that may fault.
use mathlib.Core.Path.{◌≡◌, refl}
use mukite.Common.Outcomes.{Outcome, ok, fault, null_pointer, wild_pointer, out_of_fuel, ◌>>=◌}

-- If the outcome is a value, the predicate holds of it.
abbrev pub Ensures : {A : Type 0} → (A → Type 0) → Outcome A → Type 0
Ensures P (ok a) = P a
Ensures P (fault f) = Unit {0}

pub bind-Ensures :
    {A B : Type 0} (P : B → Type 0) (m : Outcome A) (k : A → Outcome B)
    → ((a : A) → Ensures P (k a))
    → Ensures P (m >>= k)
bind-Ensures P (ok a) k h = h a
bind-Ensures P (fault f) k h = tt

pub bind-Ensures_by :
    {A B : Type 0} (P : B → Type 0) (m : Outcome A) (k : A → Outcome B)
    → ((a : A) → m ≡ ok a → Ensures P (k a))
    → Ensures P (m >>= k)
bind-Ensures_by P (ok a) k h = h a refl
bind-Ensures_by P (fault f) k h = tt

pub Ensures-map :
    {A : Type 0} (P Q : A → Type 0) (m : Outcome A)
    → ((a : A) → P a → Q a)
    → Ensures P m
    → Ensures Q m
Ensures-map P Q (ok a) f h = f a h
Ensures-map P Q (fault e) f h = tt

-- The outcome is not the model's own fault, and a value meets the predicate.
abbrev pub Meets : {A : Type 0} → (A → Type 0) → Outcome A → Type 0
Meets P (ok a) = P a
Meets P (fault null_pointer) = Unit {0}
Meets P (fault wild_pointer) = Unit {0}
Meets P (fault out_of_fuel) = ⊥

pub bind-Meets :
    {A B : Type 0} (Q : A → Type 0) (P : B → Type 0) (m : Outcome A) (k : A → Outcome B)
    → Meets Q m
    → ((a : A) → Q a → Meets P (k a))
    → Meets P (m >>= k)
bind-Meets Q P (ok a) k h f = f a h
bind-Meets Q P (fault null_pointer) k h f = tt
bind-Meets Q P (fault wild_pointer) k h f = tt
bind-Meets Q P (fault out_of_fuel) k h f = h

pub map-Meets :
    {A : Type 0} (Q P : A → Type 0) (m : Outcome A) → ((a : A) → Q a → P a) → Meets Q m → Meets P m
map-Meets Q P (ok a) f h = f a h
map-Meets Q P (fault null_pointer) f h = tt
map-Meets Q P (fault wild_pointer) f h = tt
map-Meets Q P (fault out_of_fuel) f h = h

abbrev pub Terminates : {A : Type 0} → Outcome A → Type 0
Terminates = Meets (λ a. Unit {0})

-- A step that ends, and whatever follows it.
pub bind-Terminates :
    {A B : Type 0} (m : Outcome A) (k : A → Outcome B)
    → Terminates m
    → ((a : A) → Terminates (k a))
    → Terminates (m >>= k)
bind-Terminates m k h f = bind-Meets (λ a. Unit {0}) (λ b. Unit {0}) m k h (λ a u. f a)
