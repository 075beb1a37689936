-- ===== src/Prelude/Options.antt =====
-- Fallible steps in sequence, and what it takes that all of them succeed.
use mathlib.Core.Path.{◌≡◌, refl}
use mathlib.Core.Bool.{Bool, true, false}
use mathlib.Core.Option.{Option, none, some, none-ne-some}

infixl 5 ◌>>=◌
abbrev pub ◌>>=◌ {ℓ κ} : {A : Type ℓ} {B : Type κ} → Option A → (A → Option B) → Option B
none >>= f = none
(some a) >>= f = f a

-- A result that satisfies a predicate is there.
abbrev pub Returns {ℓ κ} : {A : Type ℓ} → (A → Type κ) → Option A → Type (ℓ ⊔ κ)
Returns {A = A} P o = (a : A) × (o ≡ some a) × P a

pub Returns-some {ℓ κ} : {A : Type ℓ} {P : A → Type κ} {a : A} → P a → Returns P (some a)
Returns-some {a} p = (a, refl, p)

-- A step that returns, before a rest that returns on its result.
pub Returns-bind {ℓ κ μ ν} :
    {A : Type ℓ} {B : Type κ} {P : A → Type μ} {Q : B → Type ν} {o : Option A} {f : A → Option B}
    → Returns P o
    → ((a : A) → P a → Returns Q (f a))
    → Returns Q (o >>= f)
Returns-bind (a, e, p) rest = rw e (rest a p)

-- The same, where the rest may use which result the step returned.
pub Returns-bind_eq {ℓ κ μ ν} :
    {A : Type ℓ} {B : Type κ} {P : A → Type μ} {Q : B → Type ν} (o : Option A) {f : A → Option B}
    → Returns P o
    → ((a : A) → o ≡ some a → Returns Q (f a))
    → Returns Q (o >>= f)
Returns-bind_eq o (a, e, p) rest = rw e (rest a e)

-- A sequence that returns did so step by step.
pub >>=-eq_some {ℓ κ} :
    {A : Type ℓ} {B : Type κ} (o : Option A) {f : A → Option B} {b : B}
    → (o >>= f) ≡ some b
    → (a : A) × (o ≡ some a) × (f a ≡ some b)
>>=-eq_some none h = absurd (none-ne-some _ h)
>>=-eq_some (some a) h = (a, refl, h)

-- Both branches of a test return.
pub Returns-cases {ℓ κ} :
    {A : Type ℓ} {P : A → Type κ} (b : Bool) {x y : Option A}
    → (b ≡ false → Returns P x)
    → (b ≡ true → Returns P y)
    → Returns P (elim b [ false ↦ x | true ↦ y ])
Returns-cases false p q = p refl
Returns-cases true p q = q refl
