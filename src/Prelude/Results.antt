-- ===== src/Prelude/Results.antt =====
-- Calls that may fault, as options: one after another, and what they return.
use mathlib.Core.Path.{◌≡◌, refl}
use mathlib.Core.Option.{Option, none, some}

abbrev pub and_then {ℓ κ} : {A : Type ℓ} {B : Type κ} → Option A → (A → Option B) → Option B
and_then none f = none
and_then (some a) f = f a

-- A call that returns, and what it returns.
abbrev pub Sat {ℓ} : {A : Type ℓ} → Option A → (A → Type 0) → Type 0
Sat none P = ⊥
Sat (some a) P = P a

pub Sat-map {ℓ} :
    {A : Type ℓ} {P Q : A → Type 0} (r : Option A) → ((a : A) → P a → Q a) → Sat r P → Sat r Q
Sat-map none f h = h
Sat-map (some a) f h = f a h

-- The value of a result that has one.
pub Sat-some {ℓ} :
    {A : Type ℓ} {P : A → Type 0} (r : Option A) → Sat r P → (a : A) × (r ≡ some a) × P a
Sat-some none h = absurd h
Sat-some (some a) h = (a, refl, h)

pub and_then-Sat {ℓ κ} :
    {A : Type ℓ} {B : Type κ} (r : Option A) (f : A → Option B) (P : A → Type 0) (Q : B → Type 0)
    → Sat r P
    → ((a : A) → P a → Sat (f a) Q)
    → Sat (and_then r f) Q
and_then-Sat none f P Q h k = h
and_then-Sat (some a) f P Q h k = k a h

-- The same where the second call needs the result of the first.
pub and_then-Sat_at {ℓ κ} :
    {A : Type ℓ} {B : Type κ} (r : Option A) (f : A → Option B) (P : A → Type 0) (Q : B → Type 0)
    → Sat r P
    → ((a : A) → r ≡ some a → P a → Sat (f a) Q)
    → Sat (and_then r f) Q
and_then-Sat_at none f P Q h k = h
and_then-Sat_at (some a) f P Q h k = k a refl h
